-- ===== src/Canon/Injective.antt =====
-- The canonical text of firmware/Services/CommandCanonicalizer.cpp determines the command that it was
-- built from.
use pltsmonitoring_firmware.Prelude.{
  ℕ, if◌then◌else◌, bytes_eq, bytes_eq→eq, Bool, true, false, ◌&&◌, Option, none, some, List, [],
  ◌∷◌, ◌++◌, ◌≡◌, ◌↔◌, refl, ap, sym, ◌∙◌, inl, inr, arith, Bool-cases, Option-cases,
}
use pltsmonitoring_firmware.Canon.{Json, member, lower, CommandDef, find_def, codes}
use pltsmonitoring_firmware.Canon.Registry.{command_registry}
use pltsmonitoring_firmware.Canon.Build.{
  bar, equals, escape, value_text, emit_fields, build_canonical_string,
}
use pltsmonitoring_firmware.Canon.Grammar.{plain, ends, read, read-escape, read-plain, escape-plain}

-- Printed numbers have no reserved byte.
pub record IsPlainJson (json : Json) : Type 0 where
  pub long_plain : (v : json.Value) (s : List ℕ) → json.as_long v ≡ some s → plain s ≡ true
  pub double_plain :
      (v : json.Value) (b : Bool) (s : List ℕ) → json.as_double v ≡ some (b, s) → plain s ≡ true

abbrev pub Fields : Type 0
Fields = List (List ℕ × List ℕ)

-- The fields that a command carries, as texts: what the hash is meant to stand for.
abbrev pub with_field : List ℕ → Option (List ℕ) → Option Fields → Option Fields
with_field name none rest = none
with_field name (some s) none = none
with_field name (some s) (some rest) = some ((name, s) ∷ rest)

abbrev pub escaped : Option (List ℕ) → Option (List ℕ)
escaped none = none
escaped (some s) = some (escape s)

-- The text of a list of fields.
unfoldable emit : Fields → List ℕ
emit [] = []
emit ((name, s) ∷ rest) = bar ∷ name ++ (equals ∷ escape s ++ emit rest)

abbrev emitted : Option Fields → Option (List ℕ)
emitted none = none
emitted (some fields) = some (emit fields)

unfoldable plain_names : Fields → Bool
plain_names [] = true
plain_names ((name, s) ∷ rest) = plain name && plain_names rest

ends-emit : (fields : Fields) → ends (emit fields) ≡ true
unfolding emit
ends-emit [] = refl
ends-emit ((name, s) ∷ rest) = refl

-- The name, the text and the rest of a first field are read back.
first_name :
    (name s t : List ℕ)
    → plain name ≡ true
    → read (name ++ (equals ∷ escape s ++ t)) ≡ (name, equals ∷ escape s ++ t)
first_name name s t p = read-plain name (equals ∷ escape s ++ t) p refl

tail_of : List ℕ → List ℕ
tail_of [] = []
tail_of (c ∷ s) = s

emit-injective :
    (fs gs : Fields) → plain_names fs ≡ true → plain_names gs ≡ true → emit fs ≡ emit gs → fs ≡ gs
unfolding emit plain_names tail_of
emit-injective [] [] p q e = refl
emit-injective [] ((name, s) ∷ gs) p q e = cc
emit-injective ((name, s) ∷ fs) [] p q e = cc
emit-injective ((n, s) ∷ fs) ((k, r) ∷ gs) p q e =
    let body = ap tail_of e in
    let a = first_name n s (emit fs) (ground arith) in
    let b = first_name k r (emit gs) (ground arith) in
    let heads = sym a ∙ ap read body ∙ b in
    let names : n ≡ k = ap (λ x. x.0) heads in
    let values = ap (λ x. tail_of x.1) heads in
    let c = read-escape s (emit fs) (ends-emit fs) in
    let d = read-escape r (emit gs) (ends-emit gs) in
    let parts = sym c ∙ ap read values ∙ d in
    let texts : s ≡ r = ap (λ x. x.0) parts in
    let rest = emit-injective fs gs (ground arith) (ground arith) (ap (λ x. x.1) parts) in cc

unfoldable plain_all : List (List ℕ) → Bool
plain_all [] = true
plain_all (name ∷ names) = plain name && plain_all names

-- Every word of the registry is plain.
unfoldable plain_defs : List CommandDef → Bool
plain_defs [] = true
plain_defs (d ∷ defs) = (plain d.kind && (plain d.action && plain_all d.fields)) && plain_defs defs

command_registry-plain : plain_defs command_registry ≡ true
unfolding plain_defs plain_all plain command_registry
command_registry-plain = refl

found_plain :
    (defs : List CommandDef) (t a : List ℕ) (d : CommandDef)
    → plain_defs defs ≡ true
    → find_def defs t a ≡ some d
    → (plain t ≡ true) × (plain a ≡ true) × (plain_all d.fields ≡ true)
unfolding find_def plain_defs
found_plain [] t a d h e = cc
found_plain (d' ∷ defs) t a d h e = elim (Bool-cases (bytes_eq t d'.kind && bytes_eq a d'.action)) [
  | inl here ↦ ground (arith, bytes_eq→eq t d'.kind, bytes_eq→eq a d'.action)
  | inr there ↦ found_plain defs t a d (ground arith) (ground arith)
]

append_assoc : (xs ys zs : List ℕ) → (xs ++ ys) ++ zs ≡ xs ++ (ys ++ zs)
append_assoc [] ys zs = refl
append_assoc (x ∷ xs) ys zs = ap (◌∷◌ x) (append_assoc xs ys zs)

-- A command as the hash is meant to see it: the two words and the fields.
pub record Meaning : Type 0 where
  pub kind : List ℕ
  pub action : List ℕ
  pub fields : Fields

unfoldable write : Meaning → List ℕ
unfolding emit
write x = codes "v1" ++ (bar ∷ x.kind ++ (bar ∷ x.action ++ emit x.fields))

record IsPlain (x : Meaning) : Type 0 where
  kind_plain : plain x.kind ≡ true
  action_plain : plain x.action ≡ true
  names_plain : plain_names x.fields ≡ true

write-injective : (x y : Meaning) → IsPlain x → IsPlain y → write x ≡ write y → x ≡ y
unfolding write tail_of
write-injective x y p q e =
    let behind = ap tail_of (ap tail_of (ap tail_of e)) in
    let a = read-plain x.kind (bar ∷ x.action ++ emit x.fields) p.kind_plain refl in
    let b = read-plain y.kind (bar ∷ y.action ++ emit y.fields) q.kind_plain refl in
    let heads = sym a ∙ ap read behind ∙ b in
    let kinds : x.kind ≡ y.kind = ap (λ r. r.0) heads in
    let after = ap (λ r. tail_of r.1) heads in
    let c = read-plain x.action (emit x.fields) p.action_plain (ends-emit x.fields) in
    let d = read-plain y.action (emit y.fields) q.action_plain (ends-emit y.fields) in
    let parts = sym c ∙ ap read after ∙ d in
    let actions : x.action ≡ y.action = ap (λ r. r.0) parts in
    let fields =
      emit-injective x.fields y.fields p.names_plain q.names_plain (ap (λ r. r.1) parts) in
    cc

module _ (json : Json) where
  open json use {Value}

  abbrev pub Doc : Type 0
  Doc = List (List ℕ × Value)

  unfoldable pub shown : Value → Option (List ℕ)
  shown v = elim (json.as_bool v) [
    | some b ↦ some (if b then codes "true" else codes "false")
    | none ↦ elim (json.as_long v) [
      | some digits ↦ some digits
      | none ↦ elim (json.as_double v) [
        | some d ↦ if d.0 then some d.1 else none
        | none ↦ json.as_text v
      ]
    ]
  ]

  unfoldable pub carried : List (List ℕ) → Doc → Option Fields
  unfolding member shown
  carried [] doc = some []
  carried (name ∷ names) doc =
      let rest = carried names doc in
      elim (member name doc) [ none ↦ rest | some v ↦ with_field name (shown v) rest ]

  value_text-shown : IsPlainJson json → (v : Value) → value_text json v ≡ escaped (shown v)
  unfolding value_text shown plain
  value_text-shown p v = elim (Option-cases (json.as_bool v)) [
    | inr (true, e) ↦ ground (arith, escape-plain (codes "true") refl)
    | inr (false, e) ↦ ground (arith, escape-plain (codes "false") refl)
    | inl e ↦ elim (Option-cases (json.as_long v)) [
      | inr (digits, f) ↦ ground (arith, escape-plain digits (p.long_plain v digits f))
      | inl f ↦ elim (Option-cases (json.as_double v)) [
        | inr ((b, digits), g) ↦ ground (arith, escape-plain digits (p.double_plain v b digits g))
        | inl g ↦ ground arith
      ]
    ]
  ]

  emit_fields-carried :
      IsPlainJson json
      → (names : List (List ℕ)) (doc : Doc)
      → emit_fields json names doc ≡ emitted (carried names doc)
  unfolding emit_fields carried emit
  emit_fields-carried p [] doc = refl
  emit_fields-carried p (name ∷ names) doc = elim (Option-cases (member name doc)) [
    | inl e ↦ ground (arith, emit_fields-carried p names doc)
    | inr (v, e) ↦ ground (arith, emit_fields-carried p names doc, value_text-shown p v)
  ]

  carried-plain :
      (names : List (List ℕ)) (doc : Doc) (fs : Fields)
      → plain_all names ≡ true
      → carried names doc ≡ some fs
      → plain_names fs ≡ true
  unfolding carried plain_names plain_all
  carried-plain [] doc fs h e = ground arith
  carried-plain (name ∷ names) doc fs h e = elim (Option-cases (member name doc)) [
    | inl m ↦ carried-plain names doc fs (ground arith) (ground arith)
    | inr (v, m) ↦ elim (Option-cases (carried names doc)) [
      | inl none_left ↦ ground arith
      | inr (rest, r) ↦ let k = carried-plain names doc rest (ground arith) r in ground arith
    ]
  ]

  -- The command that a document stands for, whatever else its envelope holds.
  unfoldable pub meaning : Doc → List ℕ → List ℕ → Option Meaning
  unfolding find_def lower command_registry carried
  meaning doc kind action = elim (find_def command_registry (lower kind) (lower action)) [
    | none ↦ none
    | some d ↦ elim (carried d.fields doc) [
      | none ↦ none
      | some fs ↦ some record { kind = lower kind; action = lower action; fields = fs }
    ]
  ]

  build_write :
      IsPlainJson json
      → (doc : Doc) (kind action canon : List ℕ)
      → build_canonical_string json doc kind action ≡ some canon
      → (x : Meaning) × (meaning doc kind action ≡ some x) × IsPlain x × (canon ≡ write x)
  unfolding build_canonical_string meaning write
  build_write p doc kind action canon e =
      elim (Option-cases (find_def command_registry (lower kind) (lower action))) [
        | inl missing ↦ absurd (ground arith)
        | inr (d, found) ↦
            let (k, a, names) =
              found_plain command_registry (lower kind) (lower action) d command_registry-plain
                found in
            let same = emit_fields-carried p d.fields doc in
            elim (Option-cases (carried d.fields doc)) [
              | inl refused ↦ absurd (ground arith)
              | inr (fs, c) ↦
                  let x : Meaning = record {
                    kind = lower kind;
                    action = lower action;
                    fields = fs;
                  } in
                  let front = append_assoc (lower kind) (bar ∷ lower action) (emit fs) in
                  (
                    x,
                    ground arith,
                    record {
                      kind_plain = k;
                      action_plain = a;
                      names_plain = carried-plain d.fields doc fs names c;
                    },
                    ground arith,
                  )
            ]
      ]

  -- The canonical text is the same exactly where the type, the action and the printed texts of the
  -- carried fields are the same: neither a reserved byte in a value nor the order of the members makes two
  -- different lists of printed fields share it. It does not tell values apart that print alike, as the
  -- number 3 and the text "3". Printed numbers have no reserved byte.
  pub build_canonical_string-injective :
      IsPlainJson json
      → (doc doc' : Doc) (kind action kind' action' canon canon' : List ℕ)
      → build_canonical_string json doc kind action ≡ some canon
      → build_canonical_string json doc' kind' action' ≡ some canon'
      → (x : Meaning) × (y : Meaning) × (meaning doc kind action ≡ some x)
        × (meaning doc' kind' action' ≡ some y)
        × ((canon ≡ canon') ↔ (x ≡ y))
  build_canonical_string-injective p doc doc' kind action kind' action' canon canon' e e' =
      let (x, m, px, w) = build_write p doc kind action canon e in
      let (y, m', py, w') = build_write p doc' kind' action' canon' e' in
      (
        x,
        y,
        m,
        m',
        (λ same. write-injective x y px py (sym w ∙ same ∙ w'), λ same. w ∙ ap write same ∙ sym w'),
      )
