-- ===== src/Deliver/Redelivery.antt =====
-- The first phase of receiveOnceLocked keeps the invariant: renewals, orphans, dead letters and
-- redeliveries.
use sq.Deliver.DeadLetters.{move_elim}
use sq.Common.{
  ◌⊎◌, ℕ, ◌+◌, ◌≤◌, ◌<◌, ◌≡◌, ◌≢◌, refl, sym, arith, Bool, true, false, List, [], ◌∷◌, none, some,
  Bool-cases, Option-cases, inl, inr, leb, leb→le, subst, All,
}
use sq.Message.{Message}
use sq.Deliver.Table.{lookup, delete, delete-Ascends, lookup-delete}
use sq.Deliver.State.{Queue, cursor_of, Context, move_to_dlq, exhausted}
use sq.Deliver.Receive.{
  Request, Work, Step, failed, goes_on, Redeliver, apply_writes, apply_write, new_inflight,
  redelivery_expiry, redelivered, orphaned, dead_lettered, redeliver_one, unlock,
}
use sq.Deliver.Scan.{RedsAscend, RedsAscend-weaken}
use sq.Deliver.Marks.{ordered_at-insert, lookup-delete_first, apply_writes-Ascends}
use sq.Deliver.Invariant.{
  IsSound, IsWorkSound, IsPending, view, delete-IsSound, rewrite-IsSound, same-IsSound, same-Free,
  delete-Free, pending-view, later-IsPending,
}

module _ (c : Context) (r : Request) where
  redelivered-IsWorkSound :
      (n : ℕ) (red : Redeliver) (m : Message) (w : Work)
      → IsWorkSound n w
      → IsPending w red
      → IsWorkSound n (redelivered c r red m w)
  unfolding redelivered new_inflight apply_writes apply_write
  redelivered-IsWorkSound n red m w s p =
      let (same, there) = pending-view w red p in
      record {
        cursor = s.cursor;
        now = s.now;
        later =
            rewrite-IsSound n red.offset _ (view w) s.later (s.later.below red.offset there)
              (sym same);
        free = λ h i. ground (
          arith,
          ordered_at-insert red.offset i
              (new_inflight r c.now_ms (redelivery_expiry r c.now_ms (red.attempts + 1) red.ordered)
                (red.attempts + 1) red.ordered)
              (view w),
          s.free h i,
          s.free h red.offset,
          same,
        );
      }

  orphaned-IsWorkSound :
      (n : ℕ) (red : Redeliver) (w : Work)
      → IsWorkSound n w
      → IsPending w red
      → IsWorkSound n (orphaned red w)
  unfolding orphaned apply_writes apply_write
  orphaned-IsWorkSound n red w s p =
      let (same, there) = pending-view w red p in
      record {
        cursor = s.cursor;
        now = s.now;
        later = delete-IsSound n red.offset (view w) s.later;
        free = delete-Free red.offset n red.ordered w.ordered_busy (view w) s.later same s.free;
      }

  -- The state after a dead letter whose source record is deleted.
  abbrev moved_on : Queue → Redeliver → Message → Work → Work
  moved_on q red m w = record w { queue = q; ordered_busy = unlock red.ordered w.ordered_busy }

  moved-IsWorkSound :
      (n : ℕ) (q : Queue) (red : Redeliver) (m : Message) (w : Work)
      → q.inflight ≡ delete red.offset w.queue.inflight
      → q.cursor ≡ w.queue.cursor
      → IsWorkSound n w
      → IsPending w red
      → IsWorkSound n (moved_on q red m w)
  unfolding cursor_of
  moved-IsWorkSound n q red m w e f s p =
      let (same, there) = pending-view w red p in
      record {
        cursor = rw f s.cursor;
        now = rw e (delete-IsSound n red.offset w.queue.inflight s.now);
        later =
            same-IsSound n (delete red.offset (view w)) (apply_writes w.writes q.inflight) equal
              (apply_writes-Ascends w.writes q.inflight
                (rw e (delete-Ascends 0 red.offset w.queue.inflight s.now.ascends)))
              (delete-IsSound n red.offset (view w) s.later);
        free =
            same-Free (unlock red.ordered w.ordered_busy) (delete red.offset (view w))
              (apply_writes w.writes q.inflight) equal
              (delete-Free red.offset n red.ordered w.ordered_busy (view w) s.later same s.free);
      }
    where
      equal :
          (j : ℕ)
          → lookup j (apply_writes w.writes q.inflight) ≡ lookup j (delete red.offset (view w))
      equal j = rw e (lookup-delete_first red.offset j w.writes w.queue.inflight p.untouched)

  -- What moveToDLQ does to the records, whatever becomes of it.
  -- The records after moveToDLQ, by its success.
  abbrev pub DeadRecords : ℕ → Queue → Queue × Bool → Type 0
  DeadRecords offset q (q', true) = q'.inflight ≡ delete offset q.inflight
  DeadRecords offset q (q', false) =
      (q'.inflight ≡ q.inflight) ⊎ (q'.inflight ≡ delete offset q.inflight)

  pub move_cases :
      (q : Queue) (offset : ℕ) (m : Message) (attempts : ℕ) (reason : List ℕ)
      → ((move_to_dlq c q offset m attempts reason).0.cursor ≡ q.cursor)
        × ((move_to_dlq c q offset m attempts reason).0.msgs ≡ q.msgs)
        × DeadRecords offset q (move_to_dlq c q offset m attempts reason)
  move_cases q offset m attempts reason =
      move_elim c q offset m attempts reason
        (λ x. (x.0.cursor ≡ q.cursor) × (x.0.msgs ≡ q.msgs) × DeadRecords offset q x)
        (refl, refl, inl refl) (refl, refl, inl refl) (refl, refl, inr refl) (refl, refl, refl)

  -- The state after one candidate, good or bad.
  abbrev pub StepSound : ℕ → Step Work → Type 0
  StepSound n (failed q) = (cursor_of q ≡ n) × IsSound n q.inflight
  StepSound n (goes_on w) = IsWorkSound n w

  dead_lettered_sound :
      (n : ℕ) (red : Redeliver) (m : Message) (w : Work)
      → IsWorkSound n w
      → IsPending w red
      → StepSound n
          (dead_lettered red w (move_to_dlq c w.queue red.offset m red.attempts exhausted))
  unfolding dead_lettered
  dead_lettered_sound n red m w s p =
      go (move_to_dlq c w.queue red.offset m red.attempts exhausted)
        (move_cases w.queue red.offset m red.attempts exhausted)
    where
      go :
          (x : Queue × Bool)
          → (x.0.cursor ≡ w.queue.cursor)
            × (x.0.msgs ≡ w.queue.msgs)
            × DeadRecords red.offset w.queue x
          → StepSound n (dead_lettered red w x)
      go (q, true) (e, f, g) = moved-IsWorkSound n q red m w g e s p
      go (q, false) (e, f, inl g) = (unfold cursor_of in rw e s.cursor, rw g s.now)
      go (q, false) (e, f, inr g) = (
        unfold cursor_of in rw e s.cursor,
        rw g (delete-IsSound n red.offset w.queue.inflight s.now),
      )

  -- The four ways of a candidate.
  pub redeliver_cases :
      (P : Step Work → Type 0) (red : Redeliver) (w : Work)
      → (lookup red.offset w.queue.msgs ≡ none → P (goes_on (orphaned red w)))
      → P (failed w.queue)
      → ((raw : List ℕ) (m : Message)
          → lookup red.offset w.queue.msgs ≡ some raw
          → c.decode raw ≡ some m
          → r.max_attempts ≤ red.attempts
          → P (dead_lettered red w (move_to_dlq c w.queue red.offset m red.attempts exhausted)))
      → ((raw : List ℕ) (m : Message)
          → lookup red.offset w.queue.msgs ≡ some raw
          → c.decode raw ≡ some m
          → red.attempts < r.max_attempts
          → P (goes_on (redelivered c r red m w)))
      → P (redeliver_one c r red w)
  unfolding redeliver_one
  redeliver_cases P red w gone broken dead again =
      elim (Option-cases (lookup red.offset w.queue.msgs)) [
        | inl e ↦ rw (e, redeliver_one) (gone e)
        | inr (raw, e) ↦ elim (Option-cases (c.decode raw)) [
          | inl f ↦ rw (e, redeliver_one, f) broken
          | inr (m, f) ↦ elim (Bool-cases (leb r.max_attempts red.attempts)) [
            | inl g ↦ rw (e, redeliver_one, f, g) (dead raw m e f (leb→le _ _ g))
            | inr g ↦ rw (e, redeliver_one, f, g) (again raw m e f (ground arith))
          ]
        ]
      ]

  pub redeliver_one_sound :
      (n : ℕ) (red : Redeliver) (w : Work)
      → IsWorkSound n w
      → IsPending w red
      → StepSound n (redeliver_one c r red w)
  redeliver_one_sound n red w s p =
      redeliver_cases (StepSound n) red w (λ e. orphaned-IsWorkSound n red w s p) (s.cursor, s.now)
        (λ raw m e f g. dead_lettered_sound n red m w s p)
        (λ raw m e f g. redelivered-IsWorkSound n red m w s p)

  -- The other candidates stay as they were.
  abbrev pub KeepsPending : Redeliver → Step Work → Type 0
  KeepsPending red (failed q) = Unit {0}
  KeepsPending red (goes_on w) = IsPending w red

  dead_keeps :
      (red other : Redeliver) (m : Message) (w : Work)
      → red.offset ≢ other.offset
      → IsPending w other
      → KeepsPending other
          (dead_lettered red w (move_to_dlq c w.queue red.offset m red.attempts exhausted))
  unfolding dead_lettered
  dead_keeps red other m w ne p =
      go (move_to_dlq c w.queue red.offset m red.attempts exhausted)
        (move_cases w.queue red.offset m red.attempts exhausted)
    where
      go :
          (x : Queue × Bool)
          → (x.0.cursor ≡ w.queue.cursor)
            × (x.0.msgs ≡ w.queue.msgs)
            × DeadRecords red.offset w.queue x
          → KeepsPending other (dead_lettered red w x)
      go (q, true) (e, f, g) =
          later-IsPending w (moved_on q red m w) other p
            (rw g (ground (arith, lookup-delete red.offset other.offset w.queue.inflight, ne)))
            p.untouched
      go (q, false) h = tt

  pub redeliver_one-pending :
      (red other : Redeliver) (w : Work)
      → red.offset ≢ other.offset
      → IsPending w other
      → KeepsPending other (redeliver_one c r red w)
  redeliver_one-pending red other w ne p =
      redeliver_cases (KeepsPending other) red w
        (λ e.
          later-IsPending w (orphaned red w) other p (unfold orphaned in refl)
            (unfold orphaned in (ne, p.untouched)))
        tt (λ raw m e f g. dead_keeps red other m w ne p)
        (λ raw m e f g.
          later-IsPending w (redelivered c r red m w) other p (unfold redelivered in refl)
            (unfold redelivered in (ne, p.untouched)))

  pub All-IsPending :
      (red : Redeliver) (others : List Redeliver) (w w' : Work)
      → RedsAscend (red.offset + 1) others
      → All (IsPending w) others
      → redeliver_one c r red w ≡ goes_on w'
      → All (IsPending w') others
  All-IsPending red [] w w' a all e = tt
  All-IsPending red (other ∷ others) w w' (h, a) (p, all) e = (
    subst (KeepsPending other) e (redeliver_one-pending red other w (omega arith) p),
    All-IsPending red others w w'
        (RedsAscend-weaken (red.offset + 1) (other.offset + 1) others (omega arith) a) all e,
  )
