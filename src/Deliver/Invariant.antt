-- ===== src/Deliver/Invariant.antt =====
-- The invariant of a queue's records, and of the variables of receiveOnceLocked while it works.
use sq.Common.{ℕ, ◌≤◌, ◌<◌, ◌≡◌, ◌∙◌, arith, Bool, true, false, some, Bool-cases, inl, inr}
use sq.Deliver.Table.{Table, lookup, insert, delete, Ascends, insert-Ascends, delete-Ascends}
use sq.Deliver.Lease.{Inflight}
use sq.Deliver.State.{cursor_of}
use sq.Deliver.Receive.{unlock, Work, Redeliver, apply_writes}
use sq.Deliver.Marks.{
  ordered_at, present, OneOrdered, Below, Free, Untouched, ordered_at-insert, ordered_at-delete,
  present-insert, present-delete, lookup-Untouched,
}

-- The records are in the order of their offsets and lie before the cursor, and at most one of them
-- holds the order lock.
pub record IsSound (n : ℕ) (t : Table Inflight) : Type 0 where
  pub ascends : Ascends 0 t
  pub one_ordered : OneOrdered t
  pub below : Below n t

pub delete-IsSound : (n k : ℕ) (t : Table Inflight) → IsSound n t → IsSound n (delete k t)
delete-IsSound n k t s = record {
  ascends = delete-Ascends 0 k t s.ascends;
  one_ordered = λ i j hi hj.
      s.one_ordered i j (ground (arith, ordered_at-delete k i t))
        (ground (arith, ordered_at-delete k j t));
  below = λ i hi. s.below i (ground (arith, present-delete k i t));
}

-- A record is written over, with the same hold on the lock.
pub rewrite-IsSound :
    (n k : ℕ) (st : Inflight) (t : Table Inflight)
    → IsSound n t
    → k < n
    → st.ordered ≡ ordered_at k t
    → IsSound n (insert k st t)
rewrite-IsSound n k st t s h e = record {
  ascends = insert-Ascends 0 k st t (omega arith) s.ascends;
  one_ordered = λ i j hi hj.
      s.one_ordered i j (ground (arith, ordered_at-insert k i st t))
        (ground (arith, ordered_at-insert k j st t));
  below = λ i hi. ground (arith, present-insert k i st t, s.below i);
}

-- A new record, at the lock only if no other record holds it.
pub insert-IsSound :
    (n m k : ℕ) (st : Inflight) (t : Table Inflight)
    → IsSound n t
    → n ≤ m
    → k < m
    → (st.ordered ≡ true → (i : ℕ) → ordered_at i t ≡ false)
    → IsSound m (insert k st t)
insert-IsSound n m k st t s h hk free = record {
  ascends = insert-Ascends 0 k st t (omega arith) s.ascends;
  one_ordered = λ i j hi hj. ground (
    arith,
    ordered_at-insert k i st t,
    ordered_at-insert k j st t,
    s.one_ordered i j,
    λ (e : st.ordered ≡ true). free e i,
    λ (e : st.ordered ≡ true). free e j,
  );
  below = λ i hi. ground (arith, present-insert k i st t, s.below i);
}

pub grow-IsSound : (n m : ℕ) (t : Table Inflight) → n ≤ m → IsSound n t → IsSound m t
grow-IsSound n m t h s = record {
  ascends = s.ascends;
  one_ordered = s.one_ordered;
  below = λ i hi. omega (arith, s.below i hi);
}

-- The records as they are once the batch is applied.
abbrev pub view : Work → Table Inflight
view w = apply_writes w.writes w.queue.inflight

pub record IsWorkSound (n : ℕ) (w : Work) : Type 0 where
  pub cursor : cursor_of w.queue ≡ n
  pub now : IsSound n w.queue.inflight
  pub later : IsSound n (view w)
  pub free : Free w.ordered_busy (view w)

-- A candidate that is still to be handled.
pub record IsPending (w : Work) (red : Redeliver) : Type 0 where
  pub st : Inflight
  pub found : lookup red.offset w.queue.inflight ≡ some st
  pub same_attempts : st.attempts ≡ red.attempts
  pub same_ordered : st.ordered ≡ red.ordered
  pub untouched : Untouched red.offset w.writes

-- Soundness is a matter of what the lookups give.
pub same-IsSound :
    (n : ℕ) (t u : Table Inflight)
    → ((j : ℕ) → lookup j u ≡ lookup j t)
    → Ascends 0 u
    → IsSound n t
    → IsSound n u
unfolding ordered_at present
same-IsSound n t u e a s = record {
  ascends = a;
  one_ordered = λ i j hi hj. s.one_ordered i j (rw (e i) at hi) (rw (e j) at hj);
  below = λ i hi. s.below i (rw (e i) at hi);
}

pub same-Free :
    (b : Bool) (t u : Table Inflight) → ((j : ℕ) → lookup j u ≡ lookup j t) → Free b t → Free b u
unfolding ordered_at
same-Free b t u e f h i = rw (e i) (f h i)

-- Without the record that held the lock, the lock is free.
pub delete-Free :
    (k : ℕ) (n : ℕ) (ordered busy : Bool) (t : Table Inflight)
    → IsSound n t
    → ordered_at k t ≡ ordered
    → Free busy t
    → Free (unlock ordered busy) (delete k t)
unfolding unlock
delete-Free k n true busy t s e f h i = elim (Bool-cases (ordered_at i t)) [
  | inl g ↦ ground (arith, ordered_at-delete k i t, s.one_ordered k i e g)
  | inr g ↦ ground (arith, ordered_at-delete k i t, g)
]
delete-Free k n false busy t s e f h i = ground (arith, ordered_at-delete k i t, f h i)

pub pending-view :
    (w : Work) (red : Redeliver)
    → IsPending w red
    → (ordered_at red.offset (view w) ≡ red.ordered) × (present red.offset (view w) ≡ true)
unfolding ordered_at present
pending-view w red p =
    let e = lookup-Untouched red.offset w.writes w.queue.inflight p.untouched ∙ p.found in
    (rw e p.same_ordered, rw e)

pub later-IsPending :
    (w w' : Work) (red : Redeliver)
    → IsPending w red
    → lookup red.offset w'.queue.inflight ≡ lookup red.offset w.queue.inflight
    → Untouched red.offset w'.writes
    → IsPending w' red
later-IsPending w w' red p e u = record {
  st = p.st;
  found = e ∙ p.found;
  same_attempts = p.same_attempts;
  same_ordered = p.same_ordered;
  untouched = u;
}
