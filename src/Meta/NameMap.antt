-- ===== src/Meta/NameMap.antt =====
-- A Go map whose keys are names, as the list of its entries.
use sq.Common.{
  ℕ, List, [], ◌∷◌, Option, none, some, ◌≡◌, refl, bytes_eq, bytes_eq→eq, bytes_eq_refl,
  if◌then◌else◌, All, Bool-cases, ap, subst, inl, inr,
}

abbrev pub NameMap {ℓ} : Type ℓ → Type ℓ
NameMap A = List (List ℕ × A)

module _ {ℓ} {A : Type ℓ} where
  unfoldable pub get : List ℕ → NameMap A → Option A
  get k [] = none
  get k ((j, a) ∷ t) = if bytes_eq j k then some a else get k t

  unfoldable pub set : List ℕ → A → NameMap A → NameMap A
  set k a [] = (k, a) ∷ []
  set k a ((j, b) ∷ t) = let rest = set k a t in if bytes_eq j k then (k, a) ∷ t else (j, b) ∷ rest

  unfoldable pub remove : List ℕ → NameMap A → NameMap A
  remove k [] = []
  remove k ((j, b) ∷ t) = let rest = remove k t in if bytes_eq j k then rest else (j, b) ∷ rest

  pub get-set_same : (k : List ℕ) (a : A) (t : NameMap A) → get k (set k a t) ≡ some a
  unfolding get set
  get-set_same k a [] = rw (bytes_eq_refl k) refl
  get-set_same k a ((j, b) ∷ t) = elim (Bool-cases (bytes_eq j k)) [
    | inl e ↦ rw (e, bytes_eq_refl k) refl
    | inr e ↦ rw (e, e) (get-set_same k a t)
  ]

  pub get-remove_same : (k : List ℕ) (t : NameMap A) → get k (remove k t) ≡ none
  unfolding get remove
  get-remove_same k [] = refl
  get-remove_same k ((j, b) ∷ t) = elim (Bool-cases (bytes_eq j k)) [
    | inl e ↦ rw e (get-remove_same k t)
    | inr e ↦ rw (e, e) (get-remove_same k t)
  ]

module _ {ℓ κ} {A : Type ℓ} (P : List ℕ × A → Type κ) where
  pub All-set : (k : List ℕ) (a : A) (t : NameMap A) → P (k, a) → All P t → All P (set k a t)
  unfolding set
  All-set k a [] p all = (p, tt)
  All-set k a ((j, b) ∷ t) p (h, all) = elim (Bool-cases (bytes_eq j k)) [
    | inl e ↦ rw e (p, all)
    | inr e ↦ rw e (h, All-set k a t p all)
  ]

  pub All-remove : (k : List ℕ) (t : NameMap A) → All P t → All P (remove k t)
  unfolding remove
  All-remove k [] all = tt
  All-remove k ((j, b) ∷ t) (h, all) = elim (Bool-cases (bytes_eq j k)) [
    | inl e ↦ rw e (All-remove k t all)
    | inr e ↦ rw e (h, All-remove k t all)
  ]

  abbrev some_or : A → Option A → A
  some_or d none = d
  some_or d (some a) = a

  -- What a lookup finds under k has the property, at k.
  pub All-get : (k : List ℕ) (t : NameMap A) (a : A) → get k t ≡ some a → All P t → P (k, a)
  unfolding get
  All-get k [] a e all = cc
  All-get k ((j, b) ∷ t) a e (h, all) = elim (Bool-cases (bytes_eq j k)) [
    | inl g ↦
        let same : b ≡ a = ap (some_or b) (rw g at e) in
        subst (λ x. P (x, a)) (bytes_eq→eq j k g) (subst (λ x. P (j, x)) same h)
    | inr g ↦ All-get k t a (rw g at e) all
  ]
