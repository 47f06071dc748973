-- ===== src/Canon.antt =====
-- firmware/Services/CommandCanonicalizer.{h,cpp}: the gates that a command envelope passes, and the text
-- that its hash is taken of. Texts are lists of bytes. ArduinoJson is a parameter: what a value answers
-- to `is<T>()` and `as<T>()`, and how a number is printed. An object is the list of its members. The
-- texts of the errors are left out: a refusal is `none` or `false`.
pub mod Registry
pub mod Gates
pub mod Build
pub mod Grammar
pub mod Injective
pub mod Refusals
mod Examples
use Prim.Native.Char.{code}
use Prim.Native.String as String
use Prim.Native.String.{String}
use pltsmonitoring_firmware.Emergency.{ℤ}
use pltsmonitoring_firmware.Prelude.{
  ℕ, ◌+◌, ltb, leb, ◌==◌, if◌then◌else◌, bytes_eq, Bool, true, false, ◌&&◌, Option, none, some,
  List, [], ◌∷◌, map,
}

-- The bytes of a text in ASCII.
abbrev pub codes : String → List ℕ
codes String.[] = []
codes (String.◌∷◌ c s) = code c ∷ codes s

-- What the code asks of ArduinoJson and of the C library. `as_long` is the printed `String((long) n)` of a
-- value that is an int or a long; `as_double` a value that is a float or a double, with what `isfinite`
-- says and the text of `snprintf("%.6f")`, a zero being printed as +0; `int_or_0`, `u32_or_0` and
-- `text_or_empty` are `v | 0`, `v | 0U` and `v | ""`.
pub record Json : Type 1 where
  pub Value : Type 0
  pub as_bool : Value → Option Bool
  pub as_long : Value → Option (List ℕ)
  pub as_double : Value → Option (Bool × List ℕ)
  pub as_text : Value → Option (List ℕ)
  pub int_or_0 : Value → ℤ
  pub u32_or_0 : Value → ℕ
  pub text_or_empty : Value → List ℕ

-- A member of the object, by its name.
unfoldable pub member : {V : Type 0} → List ℕ → List (List ℕ × V) → Option V
member name [] = none
member name ((key, v) ∷ doc) = if bytes_eq key name then some v else member name doc

-- `toLowerCase()`.
abbrev pub lower_byte : ℕ → ℕ
lower_byte c = if leb 65 c && leb c 90 then c + 32 else c

unfoldable pub lower : List ℕ → List ℕ
lower [] = []
lower (c ∷ s) = lower_byte c ∷ lower s

-- `CommandDef`.
pub record CommandDef : Type 0 where
  pub kind : List ℕ
  pub action : List ℕ
  pub fields : List (List ℕ)

-- The first entry for this pair, its words in lower case.
unfoldable pub find_def : List CommandDef → List ℕ → List ℕ → Option CommandDef
find_def [] t a = none
find_def (d ∷ defs) t a =
    if bytes_eq t d.kind && bytes_eq a d.action then some d else find_def defs t a
