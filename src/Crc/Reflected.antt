-- ===== src/Crc/Reflected.antt =====
-- The shift register that both reflected CRCs run, for any polynomial: it is linear, and it loses
-- nothing when the polynomial has its top bit.
use native.Mathlib.Nat.{pow-suc}
use pltsmonitoring_firmware.Prelude.{
  ℕ, zero, suc, ◌+◌, ◌*◌, ◌/◌, ◌%◌, ◌^◌, ◌≤◌, ◌<◌, ◌==◌, if◌then◌else◌, bit_xor, ◌≡◌, ap, ◌∙◌,
  arith, refl, List, [], ◌∷◌, ◌++◌,
}
use pltsmonitoring_firmware.Prelude.Bits.{
  bit_xor_step, bit_xor-half, bit_xor-parity, bit_xor_assoc, bit_xor_comm, bit_xor_cancel,
  bit_xor-zero, bit_xor-lt,
}

unfoldable pub round : ℕ → ℕ → ℕ
round poly c = if c % 2 == 1 then bit_xor poly (c / 2) else c / 2

unfoldable pub rounds : ℕ → ℕ → ℕ → ℕ
rounds poly zero c = c
rounds poly (suc k) c = rounds poly k (round poly c)

-- A whole buffer: each byte is added to the register, which then runs eight rounds.
unfoldable pub loop : ℕ → List ℕ → ℕ → ℕ
loop poly [] crc = crc
loop poly (byte ∷ rest) crc = loop poly rest (rounds poly 8 (bit_xor crc byte))

abbrev pub IsBytes : List ℕ → Type 0
IsBytes [] = Unit {0}
IsBytes (b ∷ bs) = (b < 256) × IsBytes bs

pub loop-append :
    (poly : ℕ) (xs ys : List ℕ) (crc : ℕ)
    → loop poly (xs ++ ys) crc ≡ loop poly ys (loop poly xs crc)
unfolding loop
loop-append poly [] ys crc = refl
loop-append poly (x ∷ xs) ys crc = loop-append poly xs ys _

-- A number that is even goes through a round unchanged but for the shift.
round-bit_xor : (poly a h : ℕ) → round poly (bit_xor a (h * 2)) ≡ bit_xor (round poly a) h
unfolding round
round-bit_xor poly a h =
    let half : bit_xor a (h * 2) / 2 ≡ bit_xor (a / 2) h =
      bit_xor-half a (h * 2) ∙ ap (bit_xor (a / 2)) (omega arith) in
    ground (arith, half, bit_xor-parity a (h * 2), bit_xor_assoc poly (a / 2) h)

rounds-bit_xor :
    (poly k a h : ℕ) → rounds poly k (bit_xor a (h * 2 ^ k)) ≡ bit_xor (rounds poly k a) h
unfolding rounds
rounds-bit_xor poly zero a h = ap (bit_xor a) (omega arith)
rounds-bit_xor poly (suc k) a h =
    ap (λ t. rounds poly k (round poly (bit_xor a t)))
      (omega (arith, ap (λ (t : ℕ). h * t) (pow-suc 2 k)))
    ∙ ap (rounds poly k) (round-bit_xor poly a (h * 2 ^ k))
    ∙ rounds-bit_xor poly k (round poly a) h

-- A number is the exclusive or of its low digits and its high digits.
bit_xor-fields : (k r q : ℕ) → r < 2 ^ k → bit_xor r (q * 2 ^ k) ≡ q * 2 ^ k + r
bit_xor-fields zero zero q h = omega (arith, bit_xor_comm 0 (q * 1), bit_xor-zero (q * 1))
bit_xor-fields zero (suc r) q h = absurd (omega arith)
bit_xor-fields (suc k) r q h = ground (
  arith,
  pow-suc 2 k,
  ap (λ (t : ℕ). q * t) (pow-suc 2 k),
  bit_xor_step r (q * 2 ^ suc k),
  bit_xor-fields k (r / 2) q (omega (arith, pow-suc 2 k)),
)

-- Eight rounds: the low byte goes through the register, the other digits are shifted.
pub rounds_byte : (poly c : ℕ) → rounds poly 8 c ≡ bit_xor (rounds poly 8 (c % 256)) (c / 256)
rounds_byte poly c =
    ap (rounds poly 8) (omega (arith, bit_xor-fields 8 (c % 256) (c / 256) (omega arith)))
    ∙ rounds-bit_xor poly 8 (c % 256) (c / 256)

bit_xor-top : (k p x : ℕ) → x < 2 ^ k → 2 ^ k ≤ p → 2 ^ k ≤ bit_xor p x
bit_xor-top zero p zero h t = omega (arith, bit_xor-zero p)
bit_xor-top zero p (suc x) h t = absurd (omega arith)
bit_xor-top (suc k) p x h t =
    omega (arith, pow-suc 2 k, bit_xor_step p x, bit_xor-top k (p / 2) (x / 2))

pub bit_xor_injective : (p a b : ℕ) → bit_xor p a ≡ bit_xor p b → a ≡ b
bit_xor_injective p a b e =
    cc (bit_xor_cancel a p, bit_xor_cancel b p, bit_xor_comm a p, bit_xor_comm b p)

-- A register of `w + 1` digits and a polynomial whose top digit is set.
module _ (w poly : ℕ) (top : 2 ^ w ≤ poly) (fits : poly < 2 ^ suc w) (wide : 256 ≤ 2 ^ suc w) where
  pub round-lt : (c : ℕ) → c < 2 ^ suc w → round poly c < 2 ^ suc w
  unfolding round
  round-lt c h = ground (arith, bit_xor-lt (suc w) poly (c / 2))

  pub round_injective :
      (a b : ℕ) → a < 2 ^ suc w → b < 2 ^ suc w → round poly a ≡ round poly b → a ≡ b
  unfolding round
  round_injective a b ha hb e = ground (
    arith,
    pow-suc 2 w,
    bit_xor-top w poly (a / 2),
    bit_xor-top w poly (b / 2),
    bit_xor_injective poly (a / 2) (b / 2),
  )

  pub rounds-lt : (k c : ℕ) → c < 2 ^ suc w → rounds poly k c < 2 ^ suc w
  unfolding rounds
  rounds-lt zero c h = h
  rounds-lt (suc k) c h = rounds-lt k (round poly c) (round-lt c h)

  pub rounds_injective :
      (k a b : ℕ) → a < 2 ^ suc w → b < 2 ^ suc w → rounds poly k a ≡ rounds poly k b → a ≡ b
  unfolding rounds
  rounds_injective zero a b ha hb e = e
  rounds_injective (suc k) a b ha hb e =
      round_injective a b ha hb
        (rounds_injective k (round poly a) (round poly b) (round-lt a ha) (round-lt b hb) e)

  add_byte-lt : (crc byte : ℕ) → crc < 2 ^ suc w → byte < 256 → bit_xor crc byte < 2 ^ suc w
  add_byte-lt crc byte hc hb = bit_xor-lt (suc w) crc byte hc (omega arith)

  pub loop-lt :
      (bytes : List ℕ) (crc : ℕ) → IsBytes bytes → crc < 2 ^ suc w → loop poly bytes crc < 2 ^ suc w
  unfolding loop
  loop-lt [] crc h hc = hc
  loop-lt (byte ∷ rest) crc h hc =
      loop-lt rest _ h.1 (rounds-lt 8 (bit_xor crc byte) (add_byte-lt crc byte hc h.0))

  -- The buffer read, the register can be run backwards.
  loop_injective :
      (bytes : List ℕ) (a b : ℕ)
      → IsBytes bytes
      → a < 2 ^ suc w
      → b < 2 ^ suc w
      → loop poly bytes a ≡ loop poly bytes b
      → a ≡ b
  unfolding loop
  loop_injective [] a b h ha hb e = e
  loop_injective (byte ∷ rest) a b h ha hb e =
      let xa = add_byte-lt a byte ha h.0 in
      let xb = add_byte-lt b byte hb h.0 in
      let same : bit_xor a byte ≡ bit_xor b byte =
        rounds_injective 8 (bit_xor a byte) (bit_xor b byte) xa xb
          (loop_injective rest _ _ h.1 (rounds-lt 8 _ xa) (rounds-lt 8 _ xb) e) in
      cc (bit_xor_cancel a byte, bit_xor_cancel b byte)

  -- Two buffers that differ in one byte leave different registers.
  pub loop_detects :
      (xs ys : List ℕ) (a b crc : ℕ)
      → IsBytes xs
      → IsBytes ys
      → a < 256
      → b < 256
      → crc < 2 ^ suc w
      → loop poly (xs ++ a ∷ ys) crc ≡ loop poly (xs ++ b ∷ ys) crc
      → a ≡ b
  unfolding loop
  loop_detects xs ys a b crc hx hy ha hb hc e =
      let s : ℕ = loop poly xs crc in
      let hs = loop-lt xs crc hx hc in
      let xa = add_byte-lt s a hs ha in
      let xb = add_byte-lt s b hs hb in
      bit_xor_injective s a b (
        rounds_injective 8 (bit_xor s a) (bit_xor s b) xa xb (
          loop_injective ys _ _ hy (rounds-lt 8 _ xa) (rounds-lt 8 _ xb)
            (cc (loop-append poly xs (a ∷ ys) crc, loop-append poly xs (b ∷ ys) crc))))
