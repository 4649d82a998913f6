-- ===== src/Txn/Pairs.antt =====
-- The two records of a half message, its entry under half/ and its reference under halfidx/, stand
-- and fall together: what the batches of the manager do to both.
use sq.Common.{
  ℕ, ◌<◌, ◌≡◌, ◌≢◌, ap, sym, ◌∙◌, false, List, none, some, bytes_eq, bytes_eq→eq, bytes_eq_refl,
  length, Bool-cases, inl, inr, ◌⊎◌,
}
use sq.Store.Bytes.{IsU64}
use sq.Store.Keys.{half_key, half_idx_key}
use sq.Store.Keys.Halves.{half_key≢half_idx_key, half_idx_key-inj, half_key-inj}
use sq.Txn.Records.{
  Records, get, set, delete, get-set_self, get-set_other, get-delete_self, get-delete_other,
}
use sq.Txn.Manager.{HalfRef, Json, drop_both, put_half, reschedule}

bytes_eq-false : (xs ys : List ℕ) → bytes_eq xs ys ≡ false → xs ≢ ys
bytes_eq-false xs ys e p = let whole = sym (bytes_eq_refl xs) ∙ ap (bytes_eq xs) p ∙ e in cc

pub same_or_not : (xs ys : List ℕ) → (xs ≡ ys) ⊎ (xs ≢ ys)
same_or_not xs ys = elim (Bool-cases (bytes_eq xs ys)) [
  | inl e ↦ inl (bytes_eq→eq xs ys e)
  | inr e ↦ inr (bytes_eq-false xs ys e)
]

-- An id as NewMessageID gives it is not empty.
abbrev pub IsId : List ℕ → Type 0
IsId tx = 0 < length tx

pub ne_sym : {xs ys : List ℕ} → xs ≢ ys → ys ≢ xs
ne_sym h e = h (sym e)

pub ref-drop_self :
    (key tx : List ℕ) (t : Records) → get (half_idx_key tx) (drop_both key tx t) ≡ none
unfolding drop_both
ref-drop_self key tx t = get-delete_self (half_idx_key tx) (delete key t)

pub ref-drop_other :
    (ms : ℕ) (tx u : List ℕ) (t : Records)
    → tx ≢ u
    → get (half_idx_key u) (drop_both (half_key ms tx) tx t) ≡ get (half_idx_key u) t
unfolding drop_both
ref-drop_other ms tx u t h =
    get-delete_other (half_idx_key tx) (half_idx_key u) (delete (half_key ms tx) t)
      (λ e. h (half_idx_key-inj tx u e))
    ∙ get-delete_other (half_key ms tx) (half_idx_key u) t (half_key≢half_idx_key ms tx u)

pub half-drop_self :
    (ms : ℕ) (tx : List ℕ) (t : Records)
    → get (half_key ms tx) (drop_both (half_key ms tx) tx t) ≡ none
unfolding drop_both
half-drop_self ms tx t =
    get-delete_other (half_idx_key tx) (half_key ms tx) (delete (half_key ms tx) t)
      (ne_sym (half_key≢half_idx_key ms tx tx))
    ∙ get-delete_self (half_key ms tx) t

pub half-drop_other :
    (m n : ℕ) (tx u : List ℕ) (t : Records)
    → IsU64 m
    → IsU64 n
    → IsId tx
    → IsId u
    → tx ≢ u
    → get (half_key n u) (drop_both (half_key m tx) tx t) ≡ get (half_key n u) t
unfolding drop_both
half-drop_other m n tx u t hm hn ht hu h =
    get-delete_other (half_idx_key tx) (half_key n u) (delete (half_key m tx) t)
      (ne_sym (half_key≢half_idx_key n u tx))
    ∙ get-delete_other (half_key m tx) (half_key n u) t
        (λ e. h (half_key-inj m n tx u hm hn ht hu e).1)

module _ (json : Json) where
  abbrev pub ref_bytes : ℕ → ℕ → List ℕ
  ref_bytes next checks = json.marshal (record { next_check_ms = next; checks = checks })

  pub ref-put_self :
      (next checks : ℕ) (tx raw : List ℕ) (t : Records)
      → get (half_idx_key tx) (put_half json next checks tx raw t) ≡ some (ref_bytes next checks)
  unfolding put_half
  ref-put_self next checks tx raw t =
      get-set_self (half_idx_key tx) (ref_bytes next checks) (set (half_key next tx) raw t)

  pub ref-put_other :
      (next checks : ℕ) (tx u raw : List ℕ) (t : Records)
      → tx ≢ u
      → get (half_idx_key u) (put_half json next checks tx raw t) ≡ get (half_idx_key u) t
  unfolding put_half
  ref-put_other next checks tx u raw t h =
      get-set_other (half_idx_key tx) (half_idx_key u) _ (set (half_key next tx) raw t)
        (λ e. h (half_idx_key-inj tx u e))
      ∙ get-set_other (half_key next tx) (half_idx_key u) raw t (half_key≢half_idx_key next tx u)

  pub half-put_self :
      (next checks : ℕ) (tx raw : List ℕ) (t : Records)
      → get (half_key next tx) (put_half json next checks tx raw t) ≡ some raw
  unfolding put_half
  half-put_self next checks tx raw t =
      get-set_other (half_idx_key tx) (half_key next tx) _ (set (half_key next tx) raw t)
        (ne_sym (half_key≢half_idx_key next tx tx))
      ∙ get-set_self (half_key next tx) raw t

  pub half-put_other :
      (next checks n : ℕ) (tx u raw : List ℕ) (t : Records)
      → half_key next tx ≢ half_key n u
      → get (half_key n u) (put_half json next checks tx raw t) ≡ get (half_key n u) t
  unfolding put_half
  half-put_other next checks n tx u raw t h =
      get-set_other (half_idx_key tx) (half_key n u) _ (set (half_key next tx) raw t)
        (ne_sym (half_key≢half_idx_key n u tx))
      ∙ get-set_other (half_key next tx) (half_key n u) raw t h

  -- A transaction that waits: its reference, and its message at the time that the reference names.
  pub record Waits (t : Records) (tx : List ℕ) (ref : HalfRef) (raw : List ℕ) : Type 0 where
    pub bytes : List ℕ
    pub reference : get (half_idx_key tx) t ≡ some bytes
    pub reads : json.unmarshal bytes ≡ some ref
    pub entry : get (half_key ref.next_check_ms tx) t ≡ some raw
    pub is_u64 : IsU64 ref.next_check_ms

  -- Each reference has its entry, and each entry is the one that its reference names.
  pub record IsPaired (t : Records) : Type 0 where
    pub located :
        (tx bytes : List ℕ)
        → get (half_idx_key tx) t ≡ some bytes
        → IsId tx × (ref : HalfRef) × (raw : List ℕ) × Waits t tx ref raw
    pub indexed :
        (ms : ℕ) (tx raw : List ℕ)
        → IsU64 ms
        → IsId tx
        → get (half_key ms tx) t ≡ some raw
        → (ref : HalfRef) × (ref.next_check_ms ≡ ms) × Waits t tx ref raw

  pub ref-move_other :
      (old : List ℕ) (next checks : ℕ) (tx u raw : List ℕ) (t : Records)
      → old ≢ half_idx_key u
      → tx ≢ u
      → get (half_idx_key u) (reschedule json old next checks tx raw t) ≡ get (half_idx_key u) t
  unfolding reschedule
  ref-move_other old next checks tx u raw t k h =
      ref-put_other next checks tx u raw (delete old t) h
      ∙ get-delete_other old (half_idx_key u) t k
