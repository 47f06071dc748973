-- ===== src/Canon/Refusals.antt =====
-- What the gates of firmware/Services/CommandCanonicalizer.cpp refuse.
use pltsmonitoring_firmware.Prelude.{
  ℕ, ◌<◌, ◌≤◌, ◌==◌, if◌then◌else◌, bytes_eq, Bool, true, false, not, ◌&&◌, ◌||◌, Option, none,
  List, [], ◌∷◌, length, ◌≡◌, refl, arith,
}
use pltsmonitoring_firmware.Canon.{Json, member, lower, CommandDef, find_def, codes}
use pltsmonitoring_firmware.Canon.Registry.{command_registry}
use pltsmonitoring_firmware.Canon.Gates.{
  is_known_command_type, is_command_expired, u32_of, text_of, validate_command_envelope,
  validate_transaction_id,
}
use pltsmonitoring_firmware.Canon.Build.{canonicalize_and_hash}

-- No entry of the list has this action.
unfoldable lacks_action : List ℕ → List CommandDef → Bool
lacks_action a [] = true
lacks_action a (d ∷ defs) = not (bytes_eq a d.action) && lacks_action a defs

lacks_action-find_def :
    (t a : List ℕ) (defs : List CommandDef) → lacks_action a defs ≡ true → find_def defs t a ≡ none
unfolding lacks_action find_def
lacks_action-find_def t a [] h = refl
lacks_action-find_def t a (d ∷ defs) h =
    let rest = lacks_action-find_def t a defs (ground arith) in ground arith

registry_lacks : lacks_action (codes "acknowledgeall") command_registry ≡ true
unfolding lacks_action command_registry bytes_eq
registry_lacks = refl

never_known :
    (kind action : List ℕ)
    → lower action ≡ codes "acknowledgeall"
    → is_known_command_type kind action ≡ false
unfolding is_known_command_type
never_known kind action e =
    let gone =
      lacks_action-find_def (lower kind) (codes "acknowledgeall") command_registry registry_lacks in
    rw (e, gone) refl

refused_at_type :
    {A : Type 0} (empty known : Bool) (rest : Option A)
    → known ≡ false
    → (if empty then none else if not known then none else rest) ≡ none
refused_at_type true known rest h = refl
refused_at_type false true rest h = cc
refused_at_type false false rest h = refl

-- The command (alarm, acknowledgeAll) of the registry cannot be sent: the action is made lower case
-- before it is compared with the word of the registry, which has a capital, so a document whose action
-- is that word in any spelling is refused, whatever its type and its other members.
pub acknowledge_all_refused :
    (json : Json) (sha256 : List ℕ → List ℕ) (doc : List (List ℕ × json.Value))
    → lower (text_of json (member (codes "action") doc)) ≡ codes "acknowledgeall"
    → canonicalize_and_hash json sha256 doc ≡ none
unfolding canonicalize_and_hash
acknowledge_all_refused json sha256 doc e =
    let kind = text_of json (member (codes "type") doc) in
    let action = text_of json (member (codes "action") doc) in
    let gone = never_known kind action e in
    refused_at_type (length kind == 0 || length action == 0) (is_known_command_type kind action) _
      gone

-- An energizing command that passes both the envelope and the freshness check has a clock that is set and
-- an expiry that is not past and lies after its issue, and its identity, the transaction's or else the
-- request's, is 1 to 64 bytes long.
pub admitted_is_fresh :
    (json : Json) (now : ℕ) (doc : List (List ℕ × json.Value))
    → validate_command_envelope json doc ≡ true
    → is_command_expired json now true doc ≡ false
    → let expires_at = u32_of json (member (codes "expiresAt") doc) in
      let tid = text_of json (member (codes "transactionId") doc) in
      let rid = text_of json (member (codes "requestId") doc) in
      let key = if length tid == 0 then rid else tid in
      (0 < now)
      × (now ≤ expires_at)
      × (u32_of json (member (codes "issuedAt") doc) < expires_at)
      × (0 < length key)
      × (length key ≤ 64)
unfolding validate_command_envelope is_command_expired validate_transaction_id
admitted_is_fresh json now doc valid fresh = ground arith
