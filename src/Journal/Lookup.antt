-- ===== src/Journal/Lookup.antt =====
-- `_findInJournal` and a write to one slot.
use pltsmonitoring_firmware.Prelude.{
  ℕ, zero, suc, ◌+◌, ◌-◌, ◌≤◌, ◌<◌, bytes_eq, bytes_eq→eq, Bool, true, false, ◌&&◌, none, some,
  List, [], ◌∷◌, ◌≡◌, ◌≢◌, ◌⊎◌, inl, inr, refl, ap, ◌∙◌, arith, get_or, set, length, Bool-cases,
}
use pltsmonitoring_firmware.Journal.{Slot, empty_slot, find_in}

abbrev pub matches : List ℕ → Slot → Bool
matches id s = s.valid && bytes_eq s.id id

-- What is found is a match, in the range that was searched.
pub find_in-some :
    (id : List ℕ) (ss : List Slot) (n i k : ℕ)
    → find_in id ss n i ≡ some k
    → (i ≤ k) × (k < i + n) × (matches id (get_or ss (k - i) empty_slot) ≡ true)
unfolding find_in
find_in-some id [] n i k e = cc
find_in-some id (s ∷ ss) zero i k e = cc
find_in-some id (s ∷ ss) (suc n) i k e = elim (Bool-cases (matches id s)) [
  | inl hit ↦
      let here : i ≡ k = ground arith in
      let at : k - i ≡ 0 = omega arith in
      (omega arith, omega arith, ap (λ (t : ℕ). matches id (get_or (s ∷ ss) t empty_slot)) at ∙ hit)
  | inr miss ↦
      let (low, high, found) = find_in-some id ss n (i + 1) k (ground arith) in
      let at : k - i ≡ suc (k - (i + 1)) = omega arith in
      (
        omega arith,
        omega arith,
        ap (λ (t : ℕ). matches id (get_or (s ∷ ss) t empty_slot)) at ∙ found,
      )
]

find_in_wider :
    (id : List ℕ) (ss : List Slot) (n n' i k : ℕ)
    → find_in id ss n i ≡ some k
    → n ≤ n'
    → find_in id ss n' i ≡ some k
unfolding find_in
find_in_wider id [] n n' i k e h = cc
find_in_wider id (s ∷ ss) zero n' i k e h = cc
find_in_wider id (s ∷ ss) (suc n) zero i k e h = absurd (omega arith)
find_in_wider id (s ∷ ss) (suc n) (suc n') i k e h =
    ground (arith, find_in_wider id ss n n' (i + 1) k)

find_in_narrower :
    (id : List ℕ) (ss : List Slot) (n n' i : ℕ)
    → find_in id ss n i ≡ none
    → n' ≤ n
    → find_in id ss n' i ≡ none
unfolding find_in
find_in_narrower id [] n n' i e h = refl
find_in_narrower id (s ∷ ss) n zero i e h = refl
find_in_narrower id (s ∷ ss) zero (suc n') i e h = absurd (omega arith)
find_in_narrower id (s ∷ ss) (suc n) (suc n') i e h =
    ground (arith, find_in_narrower id ss n n' (i + 1))

find_in_zero : (id : List ℕ) (ss : List Slot) (i : ℕ) → find_in id ss 0 i ≡ none
unfolding find_in
find_in_zero id [] i = refl
find_in_zero id (s ∷ ss) i = refl

-- A write of a matching slot at w, where nothing matched before, is what a search then finds.
pub find_in-set_fresh :
    (id : List ℕ) (ss : List Slot) (n n' i w : ℕ) (s : Slot)
    → find_in id ss n i ≡ none
    → w ≤ n
    → w < n'
    → w < length ss
    → matches id s ≡ true
    → find_in id (set ss w s) n' i ≡ some (i + w)
unfolding find_in
find_in-set_fresh id [] n n' i w s e hn hw hl m = absurd (omega arith)
find_in-set_fresh id (x ∷ ss) n zero i w s e hn hw hl m = absurd (omega arith)
find_in-set_fresh id (x ∷ ss) n (suc n') i zero s e hn hw hl m = ground arith
find_in-set_fresh id (x ∷ ss) zero (suc n') i (suc w) s e hn hw hl m = absurd (omega arith)
find_in-set_fresh id (x ∷ ss) (suc n) (suc n') i (suc w) s e hn hw hl m =
    ground (arith, find_in-set_fresh id ss n n' (i + 1) w s)

-- A write of another transaction at w keeps what is found elsewhere.
pub find_in-set_other :
    (id : List ℕ) (ss : List Slot) (n n' i w k : ℕ) (s : Slot)
    → find_in id ss n i ≡ some k
    → k ≢ i + w
    → n ≤ n'
    → matches id s ≡ false
    → find_in id (set ss w s) n' i ≡ some k
unfolding find_in
find_in-set_other id [] n n' i w k s e d hn m = cc
find_in-set_other id (x ∷ ss) zero n' i w k s e d hn m = cc
find_in-set_other id (x ∷ ss) (suc n) zero i w k s e d hn m = absurd (omega arith)
find_in-set_other id (x ∷ ss) (suc n) (suc n') i zero k s e d hn m =
    ground (arith, find_in_wider id ss n n' (i + 1) k)
find_in-set_other id (x ∷ ss) (suc n) (suc n') i (suc w) k s e d hn m =
    ground (arith, find_in-set_other id ss n n' (i + 1) w k s)

small : (n : ℕ) → (suc n ≤ 0) ⊎ ((suc n ≡ 1) × (◌≡◌ {A = ℕ} 0 0)) → n ≡ 0
small n h = omega arith

-- … and a transaction that is not in the ring stays out of it.
pub find_in-set-none :
    (id : List ℕ) (ss : List Slot) (n n' i w : ℕ) (s : Slot)
    → find_in id ss n i ≡ none
    → (n' ≤ n) ⊎ ((n' ≡ suc n) × (w ≡ n))
    → matches id s ≡ false
    → find_in id (set ss w s) n' i ≡ none
unfolding find_in
find_in-set-none id [] n n' i w s e h m = refl
find_in-set-none id (x ∷ ss) n zero i zero s e h m = refl
find_in-set-none id (x ∷ ss) n zero i (suc w) s e h m = refl
find_in-set-none id (x ∷ ss) zero (suc n') i zero s e h m =
    ground (arith, find_in_zero id ss (i + 1), ap (λ (t : ℕ). find_in id ss t (i + 1)) (small n' h))
find_in-set-none id (x ∷ ss) zero (suc n') i (suc w) s e h m = absurd (omega arith)
find_in-set-none id (x ∷ ss) (suc n) (suc n') i zero s e h m =
    ground (arith, find_in_narrower id ss n n' (i + 1))
find_in-set-none id (x ∷ ss) (suc n) (suc n') i (suc w) s e h m =
    ground (arith, find_in-set-none id ss n n' (i + 1) w s)

-- A write of a matching slot where the first match stood leaves the first match there.
pub find_in-set_same :
    (id : List ℕ) (ss : List Slot) (n i w : ℕ) (s : Slot)
    → find_in id ss n i ≡ some (i + w)
    → matches id s ≡ true
    → find_in id (set ss w s) n i ≡ some (i + w)
unfolding find_in
find_in-set_same id [] n i w s e m = cc
find_in-set_same id (x ∷ ss) zero i w s e m = cc
find_in-set_same id (x ∷ ss) (suc n) i zero s e m = ground arith
find_in-set_same id (x ∷ ss) (suc n) i (suc w) s e m =
    ground (arith, find_in-set_same id ss n (i + 1) w s)

-- Two transactions found at one index are one.
pub matches_both :
    (id id' : List ℕ) (s : Slot) → matches id s ≡ true → matches id' s ≡ true → id ≡ id'
matches_both id id' s m m' = ground (arith, bytes_eq→eq s.id id, bytes_eq→eq s.id id')
