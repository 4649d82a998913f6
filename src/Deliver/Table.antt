-- ===== src/Deliver/Table.antt =====
-- The records of one queue under one key prefix, in the order of their offsets: what a scan of the
-- prefix shows, and what Get, Set and Delete do to it. (The keys sort by offset, Store.Keys.Range.)
use sq.Common.{
  ℕ, ◌+◌, ◌≤◌, ◌<◌, ◌≡◌, refl, arith, List, [], ◌∷◌, Option, none, some, ltb, ◌==◌, if◌then◌else◌,
}

abbrev pub Table {ℓ} : Type ℓ → Type ℓ
Table V = List (ℕ × V)

module _ {ℓ} {V : Type ℓ} where
  unfoldable pub lookup : ℕ → Table V → Option V
  lookup k [] = none
  lookup k ((j, v) ∷ t) = if j == k then some v else lookup k t

  unfoldable pub insert : ℕ → V → Table V → Table V
  insert k v [] = (k, v) ∷ []
  insert k v ((j, w) ∷ t) =
      let rest = insert k v t in
      if ltb k j then (k, v) ∷ (j, w) ∷ t else if j == k then (k, v) ∷ t else (j, w) ∷ rest

  unfoldable pub delete : ℕ → Table V → Table V
  delete k [] = []
  delete k ((j, v) ∷ t) = let rest = delete k t in if j == k then rest else (j, v) ∷ rest

  -- The offsets rise strictly, from n on.
  abbrev pub Ascends : ℕ → Table V → Type 0
  Ascends n [] = Unit {0}
  Ascends n ((k, v) ∷ t) = (n ≤ k) × Ascends (k + 1) t

  pub lookup-insert :
      (k j : ℕ) (v : V) (t : Table V)
      → lookup j (insert k v t) ≡ (if k == j then some v else lookup j t)
  unfolding lookup insert
  lookup-insert k j v [] = refl
  lookup-insert k j v ((i, w) ∷ t) = ground (arith, lookup-insert k j v t)

  pub lookup-delete :
      (k j : ℕ) (t : Table V) → lookup j (delete k t) ≡ (if k == j then none else lookup j t)
  unfolding lookup delete
  lookup-delete k j [] = ground arith
  lookup-delete k j ((i, w) ∷ t) = ground (arith, lookup-delete k j t)

  pub Ascends-weaken : (m n : ℕ) (t : Table V) → m ≤ n → Ascends n t → Ascends m t
  Ascends-weaken m n [] h a = tt
  Ascends-weaken m n ((k, v) ∷ t) h a = (omega arith, a.1)

  pub insert-Ascends :
      (n k : ℕ) (v : V) (t : Table V) → n ≤ k → Ascends n t → Ascends n (insert k v t)
  unfolding insert
  insert-Ascends n k v [] h a = (h, tt)
  insert-Ascends n k v ((j, w) ∷ t) h (hj, a) = ground (arith, insert-Ascends (j + 1) k v t)

  pub delete-Ascends : (n k : ℕ) (t : Table V) → Ascends n t → Ascends n (delete k t)
  unfolding delete
  delete-Ascends n k [] a = tt
  delete-Ascends n k ((j, w) ∷ t) (hj, a) =
      ground (arith, delete-Ascends (j + 1) k t, Ascends-weaken n (j + 1) (delete k t))

  -- No record stands below the first offset.
  pub lookup-below : (n k : ℕ) (t : Table V) → Ascends n t → k < n → lookup k t ≡ none
  unfolding lookup
  lookup-below n k [] a h = refl
  lookup-below n k ((j, w) ∷ t) (hj, a) h = ground (arith, lookup-below (j + 1) k t)
