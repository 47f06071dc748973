-- ===== src/Canon/Examples.antt =====
-- The canonicalizer at work on documents whose values are texts and numbers of one digit.
use pltsmonitoring_firmware.Prelude.{
  ℕ, ◌+◌, ◌%◌, ◌<◌, ◌≤◌, ◌==◌, if◌then◌else◌, true, false, Option, none, some, List, [], ◌∷◌,
  length, ◌≡◌, ◌↔◌, refl, arith, bytes_eq,
}
use pltsmonitoring_firmware.Emergency.{pos}
use pltsmonitoring_firmware.Canon.{Json, member, lower, codes}
use pltsmonitoring_firmware.Canon.Gates.{
  u32_of, text_of, is_command_expired, validate_command_envelope,
}
use pltsmonitoring_firmware.Canon.Build.{build_canonical_string, canonicalize_and_hash}
use pltsmonitoring_firmware.Canon.Grammar.{plain}
use pltsmonitoring_firmware.Canon.Injective.{
  IsPlainJson, Meaning, meaning, build_canonical_string-injective,
}
use pltsmonitoring_firmware.Canon.Refusals.{acknowledge_all_refused, admitted_is_fresh}

data Sample : Type 0 where
  word : List ℕ → Sample
  number : ℕ → Sample

abbrev text : Sample → Option (List ℕ)
text (word s) = some s
text (number n) = none

abbrev digit : Sample → Option (List ℕ)
digit (word s) = none
digit (number n) = some ((48 + n % 10) ∷ [])

abbrev worth : Sample → ℕ
worth (word s) = 0
worth (number n) = n

abbrev spelled : Sample → List ℕ
spelled (word s) = s
spelled (number n) = []

abbrev toy : Json
toy = record {
  Value = Sample;
  as_bool = λ v. none;
  as_long = digit;
  as_double = λ v. none;
  as_text = text;
  int_or_0 = λ v. pos (worth v);
  u32_or_0 = worth;
  text_or_empty = spelled;
}

digit-plain : (v : Sample) (s : List ℕ) → digit v ≡ some s → plain s ≡ true
unfolding plain
digit-plain (word t) s e = cc
digit-plain (number n) s e = ground arith

toy-IsPlainJson : IsPlainJson toy
toy-IsPlainJson = record {
  long_plain = digit-plain;
  double_plain = λ v b s e. absurd (ground arith);
}

abbrev relay_on : List (List ℕ × Sample)
relay_on =
    (codes "type", word (codes "relay"))
    ∷ (codes "action", word (codes "on"))
    ∷ (codes "source", word (codes "a|b"))
    ∷ (codes "channel", number 3)
    ∷ (codes "version", number 1)
    ∷ (codes "transactionId", word (codes "tx-1"))
    ∷ (codes "issuedAt", number 1000)
    ∷ (codes "expiresAt", number 1060)
    ∷ []

-- The same command with its members in another order and other identities.
abbrev relay_on_again : List (List ℕ × Sample)
relay_on_again =
    (codes "channel", number 3)
    ∷ (codes "source", word (codes "a|b"))
    ∷ (codes "transactionId", word (codes "tx-2"))
    ∷ []

abbrev canon : List ℕ
canon = codes "v1|relay|on|channel=3|source=a\\|b"

built : build_canonical_string toy relay_on (codes "relay") (codes "ON") ≡ some canon
unfolding build_canonical_string bytes_eq
built = refl

built_again : build_canonical_string toy relay_on_again (codes "Relay") (codes "on") ≡ some canon
unfolding build_canonical_string bytes_eq
built_again = refl

build_canonical_string-injective_example :
    (x : Meaning) × (y : Meaning) × (meaning toy relay_on (codes "relay") (codes "ON") ≡ some x)
    × (meaning toy relay_on_again (codes "Relay") (codes "on") ≡ some y)
    × ((canon ≡ canon) ↔ (x ≡ y))
build_canonical_string-injective_example =
    build_canonical_string-injective toy toy-IsPlainJson relay_on relay_on_again (codes "relay")
      (codes "ON") (codes "Relay") (codes "on") canon canon built built_again

abbrev all_alarms : List (List ℕ × Sample)
all_alarms =
    (codes "type", word (codes "alarm")) ∷ (codes "action", word (codes "acknowledgeAll")) ∷ []

says_so : lower (text_of toy (member (codes "action") all_alarms)) ≡ codes "acknowledgeall"
unfolding lower member bytes_eq
says_so = refl

acknowledge_all_refused_example : canonicalize_and_hash toy (λ s. s) all_alarms ≡ none
acknowledge_all_refused_example = acknowledge_all_refused toy (λ s. s) all_alarms says_so

whole_envelope : validate_command_envelope toy relay_on ≡ true
unfolding validate_command_envelope bytes_eq
whole_envelope = refl

in_time : is_command_expired toy 1050 true relay_on ≡ false
unfolding is_command_expired bytes_eq
in_time = refl

admitted_is_fresh_example :
    (0 < 1050)
    × (1050 ≤ u32_of toy (member (codes "expiresAt") relay_on))
    × (u32_of toy (member (codes "issuedAt") relay_on)
        < u32_of toy (member (codes "expiresAt") relay_on))
    × (0
        < length (
            if length (text_of toy (member (codes "transactionId") relay_on)) == 0
            then text_of toy (member (codes "requestId") relay_on)
            else text_of toy (member (codes "transactionId") relay_on)))
    × (length (
          if length (text_of toy (member (codes "transactionId") relay_on)) == 0
          then text_of toy (member (codes "requestId") relay_on)
          else text_of toy (member (codes "transactionId") relay_on))
        ≤ 64)
admitted_is_fresh_example = admitted_is_fresh toy 1050 relay_on whole_envelope in_time
