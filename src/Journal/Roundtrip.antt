-- ===== src/Journal/Roundtrip.antt =====
-- What `_loadFromNVS` makes of a record that `_saveEntryToNVSAtomic` wrote
-- (firmware/Services/TransactionJournal.cpp).
use pltsmonitoring_firmware.Prelude.{
  ℕ, zero, suc, ◌+◌, ◌-◌, ◌*◌, ◌/◌, ◌%◌, ◌^◌, ◌≤◌, ◌<◌, ◌==◌, if◌then◌else◌, true, ◌&&◌, List, [],
  ◌∷◌, ◌++◌, ◌≡◌, refl, ap, ◌∙◌, length, take, drop, get_or, replicate, length-append,
  length-replicate, length-take, take-length, drop-append, arith,
}
use mathlib.Core.List.{append_assoc}
use pltsmonitoring_firmware.Crc.{crc32}
use pltsmonitoring_firmware.Crc.Reflected.{IsBytes}
use pltsmonitoring_firmware.Crc.Detection.{crc32-lt, IsBytes-append}
use pltsmonitoring_firmware.Journal.{Slot, empty_slot, blob_size}
use pltsmonitoring_firmware.Journal.Blob.{text_len, ack_len, payload, le32, blob}
use pltsmonitoring_firmware.Journal.Load.{
  c_string, parse_ack, parse_hash, parse, stored_crc, accepts, load_slot,
}

text_len-le : (t : List ℕ) → text_len t ≤ 64
unfolding text_len
text_len-le t = ground arith

ack_len-le : (t : List ℕ) → ack_len t ≤ 1024
unfolding ack_len
ack_len-le t = ground arith

payload-length-le : (s : Slot) → length (payload s) ≤ 1156
unfolding payload
payload-length-le s = omega (
  arith,
  text_len-le s.id,
  text_len-le s.hash,
  ack_len-le s.ack,
  length-append (take (text_len s.id) s.id) (
      text_len s.hash
      ∷ (take (text_len s.hash) s.hash
          ++ (ack_len s.ack % 256 ∷ ack_len s.ack / 256 ∷ take (ack_len s.ack) s.ack))),
  length-append (take (text_len s.hash) s.hash)
      (ack_len s.ack % 256 ∷ ack_len s.ack / 256 ∷ take (ack_len s.ack) s.ack),
  length-take (text_len s.id) s.id,
  length-take (text_len s.hash) s.hash,
  length-take (ack_len s.ack) s.ack,
)

abbrev pub padding : Slot → List ℕ
padding s = replicate (blob_size - (8 + length (payload s))) 0

-- The record has exactly 1200 bytes for any texts whatever: the lengths that it keeps are cut so that
-- the payload ends inside the buffer.
pub length-blob : (valid : ℕ) (s : Slot) → length (blob valid s) ≡ blob_size
unfolding blob payload le32
length-blob valid s = omega (
  arith,
  payload-length-le s,
  length-append (payload s) (padding s),
  length-replicate {A = ℕ} (blob_size - (8 + length (payload s))) 0,
)

-- No byte of the text is the NUL that ends a C string.
abbrev pub IsText : List ℕ → Type 0
IsText [] = Unit {0}
IsText (b ∷ bs) = (0 < b) × (b < 256) × IsText bs

-- The texts fit the record.
pub record Fits (s : Slot) : Type 0 where
  pub id_text : IsText s.id
  pub hash_text : IsText s.hash
  pub ack_text : IsText s.ack
  pub id_short : length s.id ≤ 64
  pub hash_short : length s.hash ≤ 64
  pub ack_short : length s.ack ≤ 1024
  pub committed : s.valid ≡ true

c_string-append :
    (xs ys : List ℕ) (n : ℕ) → IsText xs → length xs ≡ n → take n (c_string (xs ++ ys)) ≡ xs
unfolding c_string
c_string-append [] ys zero h e = refl
c_string-append [] ys (suc n) h e = absurd (omega arith)
c_string-append (x ∷ xs) ys zero h e = absurd (omega arith)
c_string-append (x ∷ xs) ys (suc n) h e = ground (arith, c_string-append xs ys n h.2)

parse_ack-encoded :
    (t : Slot) (text z : List ℕ)
    → IsText text
    → length text ≤ 1024
    → parse_ack t (length text % 256 ∷ length text / 256 ∷ (text ++ z))
      ≡ record t { ack = text; valid = true }
unfolding parse_ack
parse_ack-encoded t text z h short =
    let n : length text % 256 + length text / 256 * 2 ^ 8 ≡ length text = omega arith in
    ground (
      arith,
      ap (λ (k : ℕ). take k (c_string (text ++ z))) n,
      c_string-append text z (length text) h,
    )

skip_text : (text rest : List ℕ) → drop (1 + length text) (length text ∷ (text ++ rest)) ≡ rest
skip_text text rest =
    let one : 1 + length text ≡ suc (length text) = omega arith in
    ap (λ (k : ℕ). drop k (length text ∷ (text ++ rest))) one
    ∙ drop-append text rest (length text) refl

parse_hash-encoded :
    (t : Slot) (text rest : List ℕ)
    → IsText text
    → length text ≤ 64
    → parse_hash t (length text ∷ (text ++ rest)) ≡ parse_ack (record t { hash = text }) rest
unfolding parse_hash
parse_hash-encoded t text rest h short =
    ground (arith, skip_text text rest, c_string-append text rest (length text) h)

parse-encoded :
    (t : Slot) (text rest : List ℕ)
    → IsText text
    → length text ≤ 64
    → parse t (length text ∷ (text ++ rest)) ≡ parse_hash (record t { id = text }) rest
unfolding parse
parse-encoded t text rest h short =
    ground (arith, skip_text text rest, c_string-append text rest (length text) h)

-- The payload of a slot whose texts fit, spelled out.
payload-Fits :
    (s : Slot)
    → Fits s
    → payload s
      ≡ length s.id
        ∷ (s.id ++ (length s.hash ∷ (s.hash ++ (length s.ack % 256 ∷ length s.ack / 256 ∷ s.ack))))
unfolding payload
payload-Fits s f =
    let i : text_len s.id ≡ length s.id = unfold text_len in ground arith in
    let h : text_len s.hash ≡ length s.hash = unfold text_len in ground arith in
    let a : ack_len s.ack ≡ length s.ack = unfold ack_len in ground arith in
    rw (i, h, a, take-length s.id, take-length s.hash, take-length s.ack)

parse-payload : (s : Slot) (z : List ℕ) → Fits s → parse empty_slot (payload s ++ z) ≡ s
parse-payload s z f =
    let acks : List ℕ = length s.ack % 256 ∷ length s.ack / 256 ∷ s.ack in
    let hashes : List ℕ = length s.hash ∷ (s.hash ++ acks) in
    let t : Slot = record empty_slot { id = s.id } in
    ap (λ p. parse empty_slot (p ++ z)) (payload-Fits s f)
    ∙ ap (λ l. parse empty_slot (length s.id ∷ l)) (append_assoc s.id hashes z)
    ∙ parse-encoded empty_slot s.id (hashes ++ z) f.id_text f.id_short
    ∙ ap (λ l. parse_hash t (length s.hash ∷ l)) (append_assoc s.hash acks z)
    ∙ parse_hash-encoded t s.hash (acks ++ z) f.hash_text f.hash_short
    ∙ parse_ack-encoded (record t { hash = s.hash }) s.ack z f.ack_text f.ack_short
    ∙ ground arith

IsText-IsBytes : (t : List ℕ) → IsText t → IsBytes t
IsText-IsBytes [] h = tt
IsText-IsBytes (b ∷ bs) h = (h.1, IsText-IsBytes bs h.2)

payload-IsBytes : (s : Slot) → Fits s → IsBytes (payload s)
payload-IsBytes s f =
    let acks : List ℕ = length s.ack % 256 ∷ length s.ack / 256 ∷ s.ack in
    rw (payload-Fits s f) (
      omega arith,
      IsBytes-append s.id _ (IsText-IsBytes s.id f.id_text) (
        omega arith,
        IsBytes-append s.hash acks (IsText-IsBytes s.hash f.hash_text)
            (omega arith, (omega arith, IsText-IsBytes s.ack f.ack_text)),
      ),
    )

-- The CRC that is stored, and the one that is computed when the record is loaded.
abbrev pub saved_crc : Slot → ℕ
saved_crc s = crc32 (payload s) 0xFFFFFFFF

abbrev pub checked_crc : Slot → ℕ
checked_crc s = crc32 (payload s ++ padding s) 0xFFFFFFFF

stored_crc-blob :
    (valid : ℕ) (s : Slot) → saved_crc s < 2 ^ 32 → stored_crc (blob valid s) ≡ saved_crc s
unfolding stored_crc blob le32
stored_crc-blob valid s h = omega arith

blob-head :
    (valid : ℕ) (s : Slot)
    → (get_or (blob valid s) 0 0 ≡ 0x54)
      × (get_or (blob valid s) 1 0 ≡ 0x4A)
      × (get_or (blob valid s) 2 0 ≡ 1)
      × (get_or (blob valid s) 3 0 ≡ valid)
      × (drop 8 (blob valid s) ≡ payload s ++ padding s)
unfolding blob le32
blob-head valid s = (refl, refl, refl, refl, refl)

accepts-blob :
    (valid : ℕ) (s : Slot)
    → saved_crc s < 2 ^ 32
    → accepts (blob valid s) ≡ ((valid == 1) && (saved_crc s == checked_crc s))
unfolding accepts
accepts-blob valid s h =
    let (magic₁, magic₂, version, committed, body) = blob-head valid s in
    let crc = stored_crc-blob valid s h in
    rw (length-blob valid s, magic₁, magic₂, version, committed, body, crc)

-- A record that was written comes back at the next boot exactly when its valid byte is 1 and the CRC
-- of the payload is also that of the payload with the zeros that fill the buffer: the writer takes
-- the CRC up to the end of the payload, the reader up to the end of the buffer. It comes back whole;
-- otherwise the slot stays empty. The texts have no NUL and fit their fields.
pub load_slot-blob :
    (valid : ℕ) (s : Slot)
    → Fits s
    → load_slot (blob valid s)
      ≡ (if (valid == 1) && (saved_crc s == checked_crc s) then s else empty_slot)
unfolding load_slot
load_slot-blob valid s f =
    let small = crc32-lt (payload s) 0xFFFFFFFF (payload-IsBytes s f) (omega arith) in
    let (_, _, _, _, body) = blob-head valid s in
    rw (accepts-blob valid s small, body, parse-payload s (padding s) f)
