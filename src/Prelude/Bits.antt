-- ===== src/Prelude/Bits.antt =====
-- Exclusive or at variables: its lowest digit and its half, hence associativity and shifts.
use Prim.Native.Nat.{
  ℕ, zero, suc, ◌+◌, ◌*◌, ◌/◌, ◌%◌, ◌≤◌, ◌<◌, ◌^◌, bit_xor, digits, bit_xor-bitwise, differ,
}
use native.Mathlib.Nat.{le_refl, pow-suc, div-div-eq-div-mul, div-one}
use mathlib.Core.Path.{◌≡◌, refl, sym, ◌∙◌, ap, ap₂}
use native.Mathlib.Omega.{arith}

-- Induction on the binary digits of a number.
module _ (P : ℕ → Type 0) (at_zero : P 0) (from_half : (a : ℕ) → P (suc a / 2) → P (suc a)) where
  by_halves_below : (bound a : ℕ) → a ≤ bound → P a
  by_halves_below bound zero small = at_zero
  by_halves_below zero (suc a) small = absurd (omega arith)
  by_halves_below (suc bound) (suc a) small =
      from_half a (by_halves_below bound (suc a / 2) (omega arith))

  by_halves : (a : ℕ) → P a
  by_halves a = by_halves_below a a (le_refl a)

-- More fuel than the number has digits changes nothing.
module _ (z : ℕ → ℕ) (f : ℕ → ℕ → ℕ) where
  abbrev IsEnough : ℕ → Type 0
  IsEnough a = (b fuel : ℕ) → a ≤ fuel → digits z f fuel a b ≡ digits z f a a b

  zero-IsEnough : IsEnough 0
  zero-IsEnough b zero small = refl
  zero-IsEnough b (suc fuel) small = refl

  suc-IsEnough : (a : ℕ) → IsEnough (suc a / 2) → IsEnough (suc a)
  suc-IsEnough a shorter b zero small = absurd (omega arith)
  suc-IsEnough a shorter b (suc fuel) small =
      rw (shorter (b / 2) fuel (omega arith), shorter (b / 2) a (omega arith))

  always-IsEnough : (a : ℕ) → IsEnough a
  always-IsEnough = by_halves IsEnough zero-IsEnough suc-IsEnough

differ-digits : (x y : ℕ) → x < 2 → y < 2 → differ x y ≡ (x + y) % 2
differ-digits zero zero p q = refl
differ-digits zero (suc zero) p q = refl
differ-digits (suc zero) zero p q = refl
differ-digits (suc zero) (suc zero) p q = refl
differ-digits (suc (suc x)) y p q = absurd (omega arith)
differ-digits zero (suc (suc y)) p q = absurd (omega arith)
differ-digits (suc zero) (suc (suc y)) p q = absurd (omega arith)

pub zero-bit_xor : (b : ℕ) → bit_xor 0 b ≡ b
zero-bit_xor b = bit_xor-bitwise 0 b

pub bit_xor_step : (a b : ℕ) → bit_xor a b ≡ bit_xor (a / 2) (b / 2) * 2 + (a + b) % 2
bit_xor_step zero b = omega (arith, zero-bit_xor b, zero-bit_xor (b / 2))
bit_xor_step (suc a) b = omega (
  arith,
  bit_xor-bitwise (suc a) b,
  bit_xor-bitwise (suc a / 2) (b / 2),
  always-IsEnough (λ y. y) differ (suc a / 2) (b / 2) a (omega arith),
  differ-digits (suc a % 2) (b % 2) (omega arith) (omega arith),
)

pub bit_xor-half : (a b : ℕ) → bit_xor a b / 2 ≡ bit_xor (a / 2) (b / 2)
bit_xor-half a b = omega (arith, bit_xor_step a b)

pub bit_xor-parity : (a b : ℕ) → bit_xor a b % 2 ≡ (a + b) % 2
bit_xor-parity a b = omega (arith, bit_xor_step a b)

pub bit_xor-zero : (a : ℕ) → bit_xor a 0 ≡ a
bit_xor-zero =
    by_halves (λ a. bit_xor a 0 ≡ a) refl (λ a half. omega (arith, bit_xor_step (suc a) 0, half))

pub bit_xor_assoc : (a b c : ℕ) → bit_xor (bit_xor a b) c ≡ bit_xor a (bit_xor b c)
bit_xor_assoc =
    by_halves (λ a. (b c : ℕ) → bit_xor (bit_xor a b) c ≡ bit_xor a (bit_xor b c))
      (λ b c. rw (zero-bit_xor b, zero-bit_xor (bit_xor b c)))
      (λ a half b c. omega (
        arith,
        half (b / 2) (c / 2),
        bit_xor-parity b c,
        bit_xor-parity (suc a) b,
        bit_xor_step (suc a) (bit_xor b c),
        bit_xor_step (bit_xor (suc a) b) c,
        ap (bit_xor (suc a / 2)) (bit_xor-half b c),
        ap (λ t. bit_xor t (c / 2)) (bit_xor-half (suc a) b),
      ))

pub bit_xor_self : (a : ℕ) → bit_xor a a ≡ 0
bit_xor_self =
    by_halves (λ a. bit_xor a a ≡ 0) refl
      (λ a half. omega (arith, half, bit_xor_step (suc a) (suc a)))

pub bit_xor_comm : (a b : ℕ) → bit_xor a b ≡ bit_xor b a
bit_xor_comm =
    by_halves (λ a. (b : ℕ) → bit_xor a b ≡ bit_xor b a) (λ b. rw (zero-bit_xor b, bit_xor-zero b))
      (λ a half b. omega (arith, half (b / 2), bit_xor_step b (suc a), bit_xor_step (suc a) b))

pub bit_xor_cancel : (a b : ℕ) → bit_xor (bit_xor a b) b ≡ a
bit_xor_cancel a b = bit_xor_assoc a b b ∙ ap (bit_xor a) (bit_xor_self b) ∙ bit_xor-zero a

-- Two numbers of `k` digits have an exclusive or of `k` digits.
pub bit_xor-lt : (k a b : ℕ) → a < 2 ^ k → b < 2 ^ k → bit_xor a b < 2 ^ k
bit_xor-lt zero zero zero p q = omega arith
bit_xor-lt zero (suc a) b p q = absurd (omega arith)
bit_xor-lt zero zero (suc b) p q = absurd (omega arith)
bit_xor-lt (suc k) a b p q =
    omega (arith, pow-suc 2 k, bit_xor_step a b, bit_xor-lt k (a / 2) (b / 2))

div-two-pow : (k a : ℕ) → a / 2 ^ suc k ≡ a / 2 / 2 ^ k
div-two-pow k a =
    ap (λ (t : ℕ). a / t) (omega (arith, pow-suc 2 k)) ∙ sym (div-div-eq-div-mul a 2 (2 ^ k))

pub bit_xor-shr : (k a b : ℕ) → bit_xor a b / 2 ^ k ≡ bit_xor (a / 2 ^ k) (b / 2 ^ k)
bit_xor-shr zero a b =
    omega (arith, ap (bit_xor (a / 1)) (div-one b), ap (λ t. bit_xor t b) (div-one a))
bit_xor-shr (suc k) a b =
    div-two-pow k (bit_xor a b)
    ∙ ap (λ (t : ℕ). t / 2 ^ k) (bit_xor-half a b)
    ∙ bit_xor-shr k (a / 2) (b / 2)
    ∙ ap₂ bit_xor (sym (div-two-pow k a)) (sym (div-two-pow k b))
