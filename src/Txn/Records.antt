-- ===== src/Txn/Records.antt =====
-- Records of the store under byte keys in the order of the keys, with Get, Set, Delete and Scan, as
-- internal/core/txn/txn.go uses them, and the keys of a half message.
use sq.Common.{
  ℕ, ◌≡◌, ◌≢◌, refl, sym, ◌∙◌, arith, List, [], ◌∷◌, Option, none, some, if◌then◌else◌, bytes_eq,
  bytes_eq_iff, bytes_eq_refl, bytes_ne→eq_false, take, Bool-cases, none≢some, inl, inr,
}
use sq.Store.Order.{lex_lt, in_range}

abbrev pub Records : Type 0
Records = List (List ℕ × List ℕ)

unfoldable pub get : List ℕ → Records → Option (List ℕ)
get k [] = none
get k ((j, v) ∷ t) = if bytes_eq j k then some v else get k t

unfoldable pub set : List ℕ → List ℕ → Records → Records
set k v [] = (k, v) ∷ []
set k v ((j, w) ∷ t) =
    let rest = set k v t in
    if bytes_eq j k then (k, v) ∷ t else if lex_lt k j then (k, v) ∷ (j, w) ∷ t else (j, w) ∷ rest

unfoldable pub delete : List ℕ → Records → Records
delete k [] = []
delete k ((j, v) ∷ t) = let rest = delete k t in if bytes_eq j k then rest else (j, v) ∷ rest

-- The records of the half open range, in their order.
unfoldable pub within : List ℕ → List ℕ → Records → Records
within lower upper [] = []
within lower upper ((k, v) ∷ t) =
    let rest = within lower upper t in if in_range lower (some upper) k then (k, v) ∷ rest else rest

-- Scan with a limit.
unfoldable pub scan : List ℕ → List ℕ → ℕ → Records → Records
scan lower upper limit t = take limit (within lower upper t)

pub get-set :
    (k j v : List ℕ) (t : Records) → get j (set k v t) ≡ (if bytes_eq k j then some v else get j t)
unfolding get set
get-set k j v [] = refl
get-set k j v ((i, w) ∷ t) =
    ground (arith, bytes_eq_iff k j, bytes_eq_iff i k, bytes_eq_iff i j, get-set k j v t)

pub get-delete :
    (k j : List ℕ) (t : Records) → get j (delete k t) ≡ (if bytes_eq k j then none else get j t)
unfolding get delete
get-delete k j [] = ground arith
get-delete k j ((i, w) ∷ t) =
    ground (arith, bytes_eq_iff k j, bytes_eq_iff i k, bytes_eq_iff i j, get-delete k j t)

pub get-set_self : (k v : List ℕ) (t : Records) → get k (set k v t) ≡ some v
get-set_self k v t = get-set k k v t ∙ rw (bytes_eq_refl k)

pub get-set_other : (k j v : List ℕ) (t : Records) → k ≢ j → get j (set k v t) ≡ get j t
get-set_other k j v t h = get-set k j v t ∙ rw (bytes_ne→eq_false k j h)

pub get-delete_self : (k : List ℕ) (t : Records) → get k (delete k t) ≡ none
get-delete_self k t = get-delete k k t ∙ rw (bytes_eq_refl k)

pub get-delete_other : (k j : List ℕ) (t : Records) → k ≢ j → get j (delete k t) ≡ get j t
get-delete_other k j t h = get-delete k j t ∙ rw (bytes_ne→eq_false k j h)

-- To delete what is not there changes nothing.
pub delete-absent : (k : List ℕ) (t : Records) → get k t ≡ none → delete k t ≡ t
unfolding get delete
delete-absent k [] h = refl
delete-absent k ((j, v) ∷ t) h = elim (Bool-cases (bytes_eq j k)) [
  | inl e ↦ absurd (none≢some (sym (rw e at h)))
  | inr e ↦ rw (e, delete-absent k t (rw e at h))
]
