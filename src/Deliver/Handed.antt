-- ===== src/Deliver/Handed.antt =====
-- The messages that receiveOnce hands out: each is recorded under its offset with its attempt, the
-- two things that a receipt names.
use sq.Common.{
  ℕ, suc, ◌+◌, ◌≤◌, ◌<◌, ◌≡◌, refl, ◌∙◌, arith, Bool, true, false, List, [], ◌∷◌, ◌++◌, some,
  Bool-cases, inl, inr, ◌==◌, length, length-append, All, All-append,
}
use sq.Message.{Message}
use sq.Deliver.Table.{Table, lookup, insert, delete, lookup-insert, lookup-delete}
use sq.Deliver.Lease.{Inflight}
use sq.Deliver.State.{Queue, Context, move_to_dlq, exhausted}
use sq.Deliver.Receive.{
  Request, Work, Step, failed, goes_on, Redeliver, redeliver_one, dead_lettered, orphaned,
  redelivered, apply_writes, apply_write, new_inflight,
}
use sq.Deliver.Marks.{Untouched, lookup-delete_first, present}
use sq.Deliver.Invariant.{IsPending, view}
use sq.Deliver.Redelivery.{redeliver_cases, move_cases, DeadRecords}
use sq.Deliver.Fetching.{IsStored}
use sq.Deliver.Confirm.{is_current}

-- The record of the message's delivery, by the offset and the attempt that its receipt names.
abbrev pub IsHeld : Table Inflight → Message → Type 0
IsHeld t m = is_current t m.offset m.delivery_attempt ≡ true

abbrev pub IsHeldBelow : ℕ → Table Inflight → Message → Type 0
IsHeldBelow n t m = IsHeld t m × (m.offset < n)

is_current-same :
    (t u : Table Inflight) (j a : ℕ) → lookup j u ≡ lookup j t → is_current u j a ≡ is_current t j a
unfolding is_current
is_current-same t u j a e = rw (is_current, e) refl

pub is_current-present :
    (t : Table Inflight) (j a : ℕ) → is_current t j a ≡ true → present j t ≡ true
unfolding is_current present
is_current-present t j a h = ground (arith, lookup j t)

is_current-insert :
    (k a : ℕ) (st : Inflight) (t : Table Inflight)
    → st.attempts ≡ a
    → is_current (insert k st t) k a ≡ true
unfolding is_current
is_current-insert k a st t e = ground (arith, lookup-insert k k st t)

pub lookup-insert_other :
    (k j : ℕ) (st : Inflight) (t : Table Inflight) → j < k → lookup j (insert k st t) ≡ lookup j t
lookup-insert_other k j st t h = ground (arith, lookup-insert k j st t)

lookup-delete_other : (k j : ℕ) (t : Table Inflight) → j < k → lookup j (delete k t) ≡ lookup j t
lookup-delete_other k j t h = ground (arith, lookup-delete k j t)

-- What stays below an offset is held on while the records below it stay.
pub still_held :
    (n n' : ℕ) (t u : Table Inflight) (out : List Message)
    → n ≤ n'
    → ((j : ℕ) → j < n → lookup j u ≡ lookup j t)
    → All (IsHeldBelow n t) out
    → All (IsHeldBelow n' u) out
still_held n n' t u [] h e all = tt
still_held n n' t u (m ∷ out) h e ((a, b), all) = (
  (is_current-same t u m.offset m.delivery_attempt (e m.offset b) ∙ a, omega arith),
  still_held n n' t u out h e all,
)

-- One more message, recorded at an offset above all others.
pub one_held :
    (n k a : ℕ) (st : Inflight) (t : Table Inflight) (m : Message) (out : List Message)
    → n ≤ k
    → m.offset ≡ k
    → st.attempts ≡ a
    → All (IsHeldBelow n t) out
    → All (IsHeldBelow (k + 1) (insert k st t)) (out ++ (record m { delivery_attempt = a } ∷ []))
one_held n k a st t m out h e f all =
    All-append (IsHeldBelow (k + 1) (insert k st t)) out _
      (still_held n (k + 1) t (insert k st t) out (omega arith)
        (λ j b. lookup-insert_other k j st t (omega arith)) all)
      ((rw e (is_current-insert k a st t f), omega arith), tt)

module _ (c : Context) (r : Request) where
  -- The messages handed out so far are held, below an offset, and leave room for some more.
  abbrev pub HandsOut : ℕ → ℕ → Step Work → Type 0
  HandsOut n more (failed q) = Unit {0}
  HandsOut n more (goes_on w) =
      All (IsHeldBelow n (view w)) w.out × (length w.out + more ≤ r.max_msgs)

  redelivered-HandsOut :
      (n more : ℕ) (red : Redeliver) (m : Message) (w : Work)
      → n ≤ red.offset
      → m.offset ≡ red.offset
      → HandsOut n (suc more) (goes_on w)
      → HandsOut (red.offset + 1) more (goes_on (redelivered c r red m w))
  unfolding redelivered apply_writes apply_write new_inflight
  redelivered-HandsOut n more red m w h e (all, fits) = (
    one_held n red.offset (red.attempts + 1) _ (view w) m w.out h e refl all,
    omega (arith, length-append w.out (record m { delivery_attempt = red.attempts + 1 } ∷ [])),
  )

  orphaned-HandsOut :
      (n more : ℕ) (red : Redeliver) (w : Work)
      → n ≤ red.offset
      → HandsOut n (suc more) (goes_on w)
      → HandsOut (red.offset + 1) more (goes_on (orphaned red w))
  unfolding orphaned apply_writes apply_write
  orphaned-HandsOut n more red w h (all, fits) = (
    still_held n (red.offset + 1) (view w) _ w.out (omega arith)
        (λ j b. lookup-delete_other red.offset j (view w) (omega arith)) all,
    omega arith,
  )

  dead_lettered-HandsOut :
      (n more : ℕ) (red : Redeliver) (w : Work) (x : Queue × Bool)
      → n ≤ red.offset
      → Untouched red.offset w.writes
      → DeadRecords c r red.offset w.queue x
      → HandsOut n (suc more) (goes_on w)
      → HandsOut (red.offset + 1) more (dead_lettered red w x)
  unfolding dead_lettered
  dead_lettered-HandsOut n more red w (q, false) h u e s = tt
  dead_lettered-HandsOut n more red w (q, true) h u e (all, fits) = (
    rw e (
        still_held n (red.offset + 1) (view w)
          (apply_writes w.writes (delete red.offset w.queue.inflight)) w.out (omega arith)
          (λ j b.
            lookup-delete_first red.offset j w.writes w.queue.inflight u
            ∙ lookup-delete_other red.offset j (view w) (omega arith))
          all),
    omega arith,
  )

  IsStored-lookup :
      (n k : ℕ) (t : Table (List ℕ)) (raw : List ℕ) (m : Message)
      → IsStored c.decode n t
      → lookup k t ≡ some raw
      → c.decode raw ≡ some m
      → m.offset ≡ k
  unfolding lookup
  IsStored-lookup n k [] raw m s e f = absurd (ground arith)
  IsStored-lookup n k ((j, v) ∷ t) raw m (a, b, own, s) e f = elim (Bool-cases (j == k)) [
    | inl g ↦ own m (ground arith) ∙ (ground arith)
    | inr g ↦ IsStored-lookup (j + 1) k t raw m s (ground arith) f
  ]

  pub redeliver_one-HandsOut :
      (n more : ℕ) (red : Redeliver) (w : Work)
      → IsStored c.decode 0 w.queue.msgs
      → n ≤ red.offset
      → IsPending w red
      → HandsOut n (suc more) (goes_on w)
      → HandsOut (red.offset + 1) more (redeliver_one c r red w)
  redeliver_one-HandsOut n more red w st h p s =
      redeliver_cases c r (HandsOut (red.offset + 1) more) red w
        (λ e. orphaned-HandsOut n more red w h s) tt
        (λ raw m e f g.
          dead_lettered-HandsOut n more red w
            (move_to_dlq c w.queue red.offset m red.attempts exhausted) h p.untouched
            (move_cases c r w.queue red.offset m red.attempts exhausted).2 s)
        (λ raw m e f g.
          redelivered-HandsOut n more red m w h
            (IsStored-lookup 0 red.offset w.queue.msgs raw m st e f) s)
