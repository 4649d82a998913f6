-- ===== src/Deliver/Marks.antt =====
-- What the properties say of the inflight records: where a record stands and where one holds the
-- order lock, and how sets, deletes and batches change that.
use sq.Common.{
  ℕ, ◌<◌, ◌≡◌, ◌≢◌, refl, arith, Bool, true, false, List, [], ◌∷◌, Option, none, some, ◌==◌,
  if◌then◌else◌, Option-cases, inl, inr,
}
use sq.Deliver.Table.{
  Table, lookup, insert, delete, Ascends, lookup-insert, lookup-delete, insert-Ascends,
  delete-Ascends,
}
use sq.Deliver.Lease.{Inflight}
use sq.Deliver.Receive.{Write, set_inflight, delete_inflight, apply_write, apply_writes}

abbrev mark : (Inflight → Bool) → Option Inflight → Bool
mark f none = false
mark f (some st) = f st

unfoldable pub ordered_at : ℕ → Table Inflight → Bool
ordered_at k t = mark (λ st. st.ordered) (lookup k t)

unfoldable pub present : ℕ → Table Inflight → Bool
present k t = mark (λ st. true) (lookup k t)

pub ordered_at-insert :
    (k j : ℕ) (st : Inflight) (t : Table Inflight)
    → ordered_at j (insert k st t) ≡ (if k == j then st.ordered else ordered_at j t)
unfolding ordered_at
ordered_at-insert k j st t = rw (lookup-insert k j st t) (ground arith)

pub ordered_at-delete :
    (k j : ℕ) (t : Table Inflight)
    → ordered_at j (delete k t) ≡ (if k == j then false else ordered_at j t)
unfolding ordered_at
ordered_at-delete k j t = rw (lookup-delete k j t) (ground arith)

pub present-insert :
    (k j : ℕ) (st : Inflight) (t : Table Inflight)
    → present j (insert k st t) ≡ (if k == j then true else present j t)
unfolding present
present-insert k j st t = rw (lookup-insert k j st t) (ground arith)

pub present-delete :
    (k j : ℕ) (t : Table Inflight)
    → present j (delete k t) ≡ (if k == j then false else present j t)
unfolding present
present-delete k j t = rw (lookup-delete k j t) (ground arith)

pub ordered_at-lookup :
    (k : ℕ) (t : Table Inflight) {st : Inflight}
    → lookup k t ≡ some st
    → (ordered_at k t ≡ st.ordered) × (present k t ≡ true)
unfolding ordered_at present
ordered_at-lookup k t h = (rw h, rw h)

pub present-lookup :
    (k : ℕ) (t : Table Inflight) → present k t ≡ true → (st : Inflight) × (lookup k t ≡ some st)
unfolding present
present-lookup k t h = elim (Option-cases (lookup k t)) [
  | inl e ↦ cc (rw e at h)
  | inr (st, e) ↦ (st, e)
]

-- The lock is held by a record.
pub ordered_at-present : (k : ℕ) (t : Table Inflight) → ordered_at k t ≡ true → present k t ≡ true
unfolding ordered_at present
ordered_at-present k t h = ground (arith, lookup k t)

-- At most one record holds the lock; all records stand below an offset; no record holds the lock.
abbrev pub OneOrdered : Table Inflight → Type 0
OneOrdered t = (i j : ℕ) → ordered_at i t ≡ true → ordered_at j t ≡ true → i ≡ j

abbrev pub Below : ℕ → Table Inflight → Type 0
Below n t = (i : ℕ) → present i t ≡ true → i < n

abbrev pub Free : Bool → Table Inflight → Type 0
Free busy t = busy ≡ false → (i : ℕ) → ordered_at i t ≡ false

abbrev pub target : Write → ℕ
target (set_inflight k st) = k
target (delete_inflight k) = k

-- No write of the batch is to this offset.
abbrev pub Untouched : ℕ → List Write → Type 0
Untouched k [] = Unit {0}
Untouched k (w ∷ ws) = (target w ≢ k) × Untouched k ws

pub lookup-Untouched :
    (k : ℕ) (ws : List Write) (t : Table Inflight)
    → Untouched k ws
    → lookup k (apply_writes ws t) ≡ lookup k t
unfolding apply_writes apply_write
lookup-Untouched k [] t u = refl
lookup-Untouched k (set_inflight j st ∷ ws) t (n, u) =
    ground (arith, lookup-insert j k st (apply_writes ws t), lookup-Untouched k ws t u)
lookup-Untouched k (delete_inflight j ∷ ws) t (n, u) =
    ground (arith, lookup-delete j k (apply_writes ws t), lookup-Untouched k ws t u)

-- A delete at an offset that the batch leaves alone can as well come last.
pub lookup-delete_first :
    (k j : ℕ) (ws : List Write) (t : Table Inflight)
    → Untouched k ws
    → lookup j (apply_writes ws (delete k t)) ≡ lookup j (delete k (apply_writes ws t))
unfolding apply_writes apply_write
lookup-delete_first k j [] t u = refl
lookup-delete_first k j (set_inflight i st ∷ ws) t (n, u) = ground (
  arith,
  lookup-insert i j st (apply_writes ws (delete k t)),
  lookup-delete k j (insert i st (apply_writes ws t)),
  lookup-insert i j st (apply_writes ws t),
  lookup-delete k j (apply_writes ws t),
  lookup-delete_first k j ws t u,
)
lookup-delete_first k j (delete_inflight i ∷ ws) t (n, u) = ground (
  arith,
  lookup-delete i j (apply_writes ws (delete k t)),
  lookup-delete k j (delete i (apply_writes ws t)),
  lookup-delete i j (apply_writes ws t),
  lookup-delete k j (apply_writes ws t),
  lookup-delete_first k j ws t u,
)

pub apply_writes-Ascends :
    (ws : List Write) (t : Table Inflight) → Ascends 0 t → Ascends 0 (apply_writes ws t)
unfolding apply_writes apply_write
apply_writes-Ascends [] t a = a
apply_writes-Ascends (set_inflight k st ∷ ws) t a =
    insert-Ascends 0 k st _ (omega arith) (apply_writes-Ascends ws t a)
apply_writes-Ascends (delete_inflight k ∷ ws) t a =
    delete-Ascends 0 k _ (apply_writes-Ascends ws t a)
