-- ===== src/Expander/Register.antt =====
-- The bits of the expander's register (firmware/Drivers/RelayExpanderDriver.cpp), checked over every
-- byte and channel.
use pltsmonitoring_firmware.Prelude.{
  ℕ, zero, suc, ◌+◌, ◌≤◌, inl, inr, Bool-cases, ap, sym, ◌∙◌, ◌/◌, ◌%◌, ◌^◌, ◌<◌, ◌==◌,
  if◌then◌else◌, ltb, Bool, true, false, not, ◌&&◌, ◌≡◌, refl, arith,
}
use pltsmonitoring_firmware.Expander.{next_state}

-- Whether a register value switches a channel on.
unfoldable pub is_on : ℕ → ℕ → Bool
is_on port channel = (port / 2 ^ channel) % 2 == 0

-- The test holds of the `count` numbers from `first` on.
holds_from : ℕ → ℕ → (ℕ → Bool) → Bool
holds_from first zero test = true
holds_from first (suc count) test = test first && holds_from (first + 1) count test

holds_from-apply :
    (test : ℕ → Bool) (first count n : ℕ)
    → holds_from first count test ≡ true
    → first ≤ n
    → n < first + count
    → test n ≡ true
unfolding holds_from
holds_from-apply test first zero n every low high = absurd (omega arith)
holds_from-apply test first (suc count) n every low high = elim (Bool-cases (first == n)) [
  | inl here ↦ let at : first ≡ n = ground arith in ap test (sym at) ∙ ground arith
  | inr later ↦
      holds_from-apply test (first + 1) count n (ground arith) (ground arith) (omega arith)
]

holds_below :
    (test : ℕ → Bool) (count n : ℕ) → holds_from 0 count test ≡ true → n < count → test n ≡ true
holds_below test count n every high =
    holds_from-apply test 0 count n every (omega arith) (omega arith)

same : Bool → Bool → Bool
same true b = b
same false true = false
same false false = true

same→eq : (a b : Bool) → same a b ≡ true → a ≡ b
unfolding same
same→eq true b h = ground arith
same→eq false true h = cc
same→eq false false h = refl

-- One register value: each write of a channel changes that channel alone, and stays a byte.
check : ℕ → Bool
check x = holds_from 0 8 λ c. holds_from 0 8 λ d.
    ltb (next_state x c true) 256
    && ltb (next_state x c false) 256
    && same (is_on (next_state x c true) d) (if d == c then true else is_on x d)
    && same (is_on (next_state x c false) d) (if d == c then false else is_on x d)

check_all : holds_from 0 256 check ≡ true
unfolding check holds_from same is_on next_state
check_all = refl

row :
    (x c d : ℕ)
    → x < 256
    → c < 8
    → d < 8
    → (next_state x c true < 256)
      × (next_state x c false < 256)
      × (same (is_on (next_state x c true) d) (if d == c then true else is_on x d) ≡ true)
      × (same (is_on (next_state x c false) d) (if d == c then false else is_on x d) ≡ true)
unfolding check
row x c d hx hc hd =
    let checked = holds_below check 256 x check_all hx in
    let channels = holds_below _ 8 c checked hc in
    let both = holds_below _ 8 d channels hd in ground arith

-- What a new value of the register switches, and that it is a byte.
pub next_state-is_on :
    (on : Bool) (x c d : ℕ)
    → x < 256
    → c < 8
    → d < 8
    → (is_on (next_state x c on) d ≡ (if d == c then on else is_on x d)) × (next_state x c on < 256)
next_state-is_on true x c d hx hc hd =
    let (low, _, bits, _) = row x c d hx hc hd in (same→eq _ _ bits, low)
next_state-is_on false x c d hx hc hd =
    let (_, low, _, bits) = row x c d hx hc hd in (same→eq _ _ bits, low)

all_off_table : holds_from 0 8 (λ c. not (is_on 0xFF c)) ≡ true
unfolding holds_from is_on
all_off_table = refl

pub none_on : (c : ℕ) → c < 8 → is_on 0xFF c ≡ false
none_on c h = let off = holds_below _ 8 c all_off_table h in ground arith
