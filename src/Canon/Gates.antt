-- ===== src/Canon/Gates.antt =====
-- The checks of firmware/Services/CommandCanonicalizer.cpp: `isKnownCommandType`, `isFieldAllowed`,
-- `validateTransactionId`, `validateProtocolVersion`, `isCommandExpired` and `validateCommandEnvelope`.
use pltsmonitoring_firmware.Prelude.{
  ℕ, ltb, leb, ◌==◌, if◌then◌else◌, bytes_eq, Bool, true, false, not, ◌&&◌, ◌||◌, Option, none,
  some, List, [], ◌∷◌, length,
}
use pltsmonitoring_firmware.Emergency.{ℤ, pos, negsuc}
use pltsmonitoring_firmware.Canon.{Json, member, lower, find_def, codes}
use pltsmonitoring_firmware.Canon.Registry.{command_registry}

abbrev pub is_some : {A : Type 0} → Option A → Bool
is_some none = false
is_some (some a) = true

unfoldable pub is_known_command_type : List ℕ → List ℕ → Bool
unfolding find_def lower command_registry
is_known_command_type t a = is_some (find_def command_registry (lower t) (lower a))

unfoldable pub one_of : List ℕ → List (List ℕ) → Bool
one_of field [] = false
one_of field (name ∷ names) = bytes_eq field name || one_of field names

abbrev pub envelope_fields : List (List ℕ)
envelope_fields =
    codes "type"
    ∷ codes "action"
    ∷ codes "requestId"
    ∷ codes "transactionId"
    ∷ codes "version"
    ∷ codes "issuedAt"
    ∷ codes "expiresAt"
    ∷ []

unfoldable pub is_field_allowed : List ℕ → List ℕ → List ℕ → Bool
unfolding find_def lower command_registry one_of
is_field_allowed t a field =
    if one_of field envelope_fields
    then true
    else elim (find_def command_registry (lower t) (lower a)) [
      | none ↦ false
      | some d ↦ one_of field d.fields
    ]

abbrev pub min_transaction_id_len : ℕ
min_transaction_id_len = 1

abbrev pub max_transaction_id_len : ℕ
max_transaction_id_len = 64

-- A letter, a digit, '-' or '_'.
abbrev pub id_byte : ℕ → Bool
id_byte c =
    (leb 97 c && leb c 122)
    || ((leb 65 c && leb c 90) || ((leb 48 c && leb c 57) || (c == 45 || c == 95)))

unfoldable pub all_id_bytes : List ℕ → Bool
all_id_bytes [] = true
all_id_bytes (c ∷ s) = id_byte c && all_id_bytes s

unfoldable pub validate_transaction_id : List ℕ → Bool
unfolding all_id_bytes
validate_transaction_id tid =
    if ltb (length tid) min_transaction_id_len || ltb max_transaction_id_len (length tid)
    then false
    else all_id_bytes tid

abbrev pub canonical_command_version : ℕ
canonical_command_version = 1

abbrev pub validate_protocol_version : ℤ → Bool
validate_protocol_version (pos version) = version == canonical_command_version
validate_protocol_version (negsuc n) = false

module _ (json : Json) where
  open json use {Value}

  abbrev pub u32_of : Option Value → ℕ
  u32_of none = 0
  u32_of (some v) = json.u32_or_0 v

  abbrev pub int_of : Option Value → ℤ
  int_of none = pos 0
  int_of (some v) = json.int_or_0 v

  abbrev pub text_of : Option Value → List ℕ
  text_of none = []
  text_of (some v) = json.text_or_empty v

  -- `now` is `time()`, 0 where the clock is not set.
  unfoldable pub is_command_expired : ℕ → Bool → List (List ℕ × Value) → Bool
  unfolding member
  is_command_expired now energizing doc =
      let expires_at = u32_of (member (codes "expiresAt") doc) in
      if expires_at == 0
      then energizing && now == 0
      else if now == 0
      then energizing
      else ltb expires_at now

  unfoldable pub validate_command_envelope : List (List ℕ × Value) → Bool
  unfolding member validate_transaction_id
  validate_command_envelope doc =
      let tid = text_of (member (codes "transactionId") doc) in
      let rid = text_of (member (codes "requestId") doc) in
      let key = if length tid == 0 then rid else tid in
      let issued_at = u32_of (member (codes "issuedAt") doc) in
      let expires_at = u32_of (member (codes "expiresAt") doc) in
      if not (is_some (member (codes "version") doc))
      then false
      else if not (validate_protocol_version (int_of (member (codes "version") doc)))
      then false
      else if length key == 0
      then false
      else if not (validate_transaction_id key)
      then false
      else if ltb 0 (length rid) && not (validate_transaction_id rid)
      then false
      else if issued_at == 0
      then false
      else if expires_at == 0
      then false
      else not (leb expires_at issued_at)
