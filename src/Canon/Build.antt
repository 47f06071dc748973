-- ===== src/Canon/Build.antt =====
-- `buildCanonicalString`, `canonicalizeAndHash` and `decideTransaction` of
-- firmware/Services/CommandCanonicalizer.cpp. The hash is a parameter.
use pltsmonitoring_firmware.Prelude.{
  ℕ, ◌==◌, if◌then◌else◌, bytes_eq, Bool, true, not, ◌&&◌, ◌||◌, Option, none, some, List, [], ◌∷◌,
  ◌++◌, length,
}
use pltsmonitoring_firmware.Journal.{Journal, Env, Decision, decide, new}
use pltsmonitoring_firmware.Canon.{Json, member, lower, find_def, codes}
use pltsmonitoring_firmware.Canon.Registry.{command_registry}
use pltsmonitoring_firmware.Canon.Gates.{
  is_known_command_type, is_field_allowed, validate_transaction_id, validate_protocol_version,
  is_some, int_of, text_of,
}

abbrev pub bar : ℕ
bar = 124

abbrev pub equals : ℕ
equals = 61

abbrev pub backslash : ℕ
backslash = 92

abbrev pub reserved : ℕ → Bool
reserved c = c == bar || (c == equals || c == backslash)

-- The reserved bytes of a text behind a backslash.
unfoldable pub escape : List ℕ → List ℕ
escape [] = []
escape (c ∷ s) = if reserved c then backslash ∷ c ∷ escape s else c ∷ escape s

module _ (json : Json) where
  open json use {Value}

  abbrev pub Doc : Type 0
  Doc = List (List ℕ × Value)

  -- What is written for a value, by the first type that it has; `none` where it is refused.
  unfoldable pub value_text : Value → Option (List ℕ)
  unfolding escape
  value_text v = elim (json.as_bool v) [
    | some b ↦ some (if b then codes "true" else codes "false")
    | none ↦ elim (json.as_long v) [
      | some digits ↦ some digits
      | none ↦ elim (json.as_double v) [
        | some d ↦ if d.0 then some d.1 else none
        | none ↦ elim (json.as_text v) [ some s ↦ some (escape s) | none ↦ none ]
      ]
    ]
  ]

  -- One field that is there, before the fields that follow it.
  abbrev pub emit_field : List ℕ → Option (List ℕ) → Option (List ℕ) → Option (List ℕ)
  emit_field name none rest = none
  emit_field name (some s) none = none
  emit_field name (some s) (some rest) = some (bar ∷ name ++ (equals ∷ s ++ rest))

  -- The fields in the order of the registry.
  unfoldable pub emit_fields : List (List ℕ) → Doc → Option (List ℕ)
  unfolding member value_text
  emit_fields [] doc = some []
  emit_fields (name ∷ names) doc =
      let rest = emit_fields names doc in
      elim (member name doc) [ none ↦ rest | some v ↦ emit_field name (value_text v) rest ]

  unfoldable pub all_allowed : List ℕ → List ℕ → Doc → Bool
  unfolding is_field_allowed
  all_allowed t a [] = true
  all_allowed t a ((key, v) ∷ doc) = is_field_allowed t a key && all_allowed t a doc

  abbrev pub prepend : List ℕ → Option (List ℕ) → Option (List ℕ)
  prepend front none = none
  prepend front (some s) = some (front ++ s)

  unfoldable pub build_canonical_string : Doc → List ℕ → List ℕ → Option (List ℕ)
  unfolding emit_fields all_allowed find_def lower command_registry
  build_canonical_string doc kind action =
      let t = lower kind in
      let a = lower action in
      elim (find_def command_registry t a) [
        | none ↦ none
        | some d ↦
            if all_allowed t a doc
            then prepend (codes "v1" ++ (bar ∷ t ++ (bar ∷ a))) (emit_fields d.fields doc)
            else none
      ]

  -- `CanonicalResult`, of a document that is not refused.
  pub record CanonicalResult : Type 0 where
    pub transaction_id : List ℕ
    pub request_id : List ℕ
    pub canonical_string : List ℕ
    pub command_hash : List ℕ

  abbrev pub first_of : List ℕ → List ℕ → List ℕ
  first_of tid rid = if length tid == 0 then rid else tid

  unfoldable pub canonicalize_and_hash : (List ℕ → List ℕ) → Doc → Option CanonicalResult
  unfolding build_canonical_string is_known_command_type validate_transaction_id member
  canonicalize_and_hash sha256 doc =
      let kind = text_of json (member (codes "type") doc) in
      let action = text_of json (member (codes "action") doc) in
      let version = member (codes "version") doc in
      let given = text_of json (member (codes "requestId") doc) in
      let tid = first_of (text_of json (member (codes "transactionId") doc)) given in
      let rid = first_of given tid in
      if length kind == 0 || length action == 0
      then none
      else if not (is_known_command_type kind action)
      then none
      else if is_some version && not (validate_protocol_version (int_of json version))
      then none
      else if not (length tid == 0) && not (validate_transaction_id tid)
      then none
      else if not (length rid == 0) && (not (bytes_eq rid tid) && not (validate_transaction_id rid))
      then none
      else elim (build_canonical_string doc kind action) [
        | none ↦ none
        | some canon ↦ some record {
          transaction_id = tid;
          request_id = rid;
          canonical_string = canon;
          command_hash = sha256 canon;
        }
      ]

-- `DecisionResult`: the decision with the previous ack.
unfoldable pub decide_transaction :
    Env → Journal → List ℕ → List ℕ → (Decision × Option (List ℕ)) × Journal
unfolding decide
decide_transaction e j tid hash =
    if length tid == 0 then ((new, some []), j) else decide e j tid hash
