-- ===== src/Canon/Grammar.antt =====
-- The grammar of the canonical text of firmware/Services/CommandCanonicalizer.cpp: what a reader that
-- undoes the escapes finds in it.
use pltsmonitoring_firmware.Prelude.{
  ℕ, ◌==◌, if◌then◌else◌, Bool, true, false, not, ◌&&◌, ◌||◌, List, [], ◌∷◌, ◌++◌, ◌≡◌, refl, ap,
  sym, ◌∙◌, inl, inr, arith, Bool-cases,
}
use pltsmonitoring_firmware.Canon.Build.{bar, equals, backslash, reserved, escape}

-- No byte of the text is reserved.
unfoldable pub plain : List ℕ → Bool
plain [] = true
plain (c ∷ s) = not (reserved c) && plain s

-- A text up to the first reserved byte that no backslash stands before, and the rest.
unfoldable pub read : List ℕ → List ℕ × List ℕ
read [] = ([], [])
read (c ∷ []) = if reserved c then ([], c ∷ []) else (c ∷ [], [])
read (c ∷ d ∷ s) =
    let (after, behind) = read s in
    let (next, left) = read (d ∷ s) in
    if c == backslash
    then (d ∷ after, behind)
    else if reserved c
    then ([], c ∷ d ∷ s)
    else (c ∷ next, left)

-- What may follow a text: nothing, or a bar or an equals sign.
abbrev pub ends : List ℕ → Bool
ends [] = true
ends (c ∷ s) = c == bar || c == equals

read_end : (t : List ℕ) → ends t ≡ true → read t ≡ ([], t)
unfolding read
read_end [] h = refl
read_end (c ∷ []) h = ground arith
read_end (c ∷ d ∷ s) h = ground arith

read_byte : (c : ℕ) (s : List ℕ) → reserved c ≡ false → read (c ∷ s) ≡ (c ∷ (read s).0, (read s).1)
unfolding read
read_byte c [] h = ground arith
read_byte c (d ∷ s) h = ground arith

read_escaped : (c : ℕ) (s : List ℕ) → read (backslash ∷ c ∷ s) ≡ (c ∷ (read s).0, (read s).1)
unfolding read
read_escaped c s = refl

-- The reader finds the text that was escaped, and stops where it ends.
pub read-escape : (s t : List ℕ) → ends t ≡ true → read (escape s ++ t) ≡ (s, t)
unfolding escape
read-escape [] t h = read_end t h
read-escape (c ∷ s) t h =
    let rest = read-escape s t h in
    elim (Bool-cases (reserved c)) [
      | inl special ↦ ground (arith, read_escaped c (escape s ++ t))
      | inr ordinary ↦ ground (arith, read_byte c (escape s ++ t))
    ]

pub escape-plain : (s : List ℕ) → plain s ≡ true → escape s ≡ s
unfolding escape plain
escape-plain [] h = refl
escape-plain (c ∷ s) h = ground (arith, escape-plain s)

pub read-plain : (s t : List ℕ) → plain s ≡ true → ends t ≡ true → read (s ++ t) ≡ (s, t)
read-plain s t p h = ap (λ e. read (e ++ t)) (sym (escape-plain s p)) ∙ read-escape s t h
