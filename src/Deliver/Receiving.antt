-- ===== src/Deliver/Receiving.antt =====
-- The whole of receiveOnce: what a call leaves, on every path.
use sq.Common.{
  ℕ, zero, suc, ◌≡◌, refl, ◌∙◌, arith, Bool, true, false, ◌||◌, List, [], ◌∷◌, Bool-cases, inl, inr,
  ltb, subst, length,
}
use sq.Deliver.Table.{Table}
use sq.Deliver.Lease.{Inflight}
use sq.Deliver.State.{
  Queue, cursor_of, Context, Commit, rejected, unsynced, committed, move_to_dlq, exhausted,
}
use sq.Deliver.Receive.{
  Request, Work, Step, failed, goes_on, Redeliver, Fetch, Received, refused, received, applied,
  commit_batch, finish, receive_once, scan_inflight, start, redeliver_all, redeliver_one,
  fetch_phase, dead_lettered, orphaned, redelivered, renew_all, merge_skips, Visit, broken, ends,
  continues, visit, skipped_one, delivered_one, fetch_all, fetch_start, from_offset, scan_budget,
}
use sq.Deliver.Invariant.{IsSound, view}
use sq.Deliver.Redelivery.{StepSound, redeliver_cases, move_cases}
use sq.Deliver.Loops.{Step-elim, first_phase_sound}
use sq.Deliver.Fetching.{
  IsStored, IsFetchSound, FetchSound, fetch_phase_sound, visit_cases, Visit-elim,
}

-- The queue that a call leaves.
abbrev pub left : Received → Queue
left (refused q) = q
left (received q out) = q

abbrev pub IsQueueSound : Queue → Type 0
IsQueueSound q = IsSound (cursor_of q) q.inflight

-- A step whose error the call returns.
pub Received-elim :
    {A : Type 0} (P : Received → Type 0) (s : Step A) (k : A → Received)
    → ((q : Queue) → s ≡ failed q → P (refused q))
    → ((a : A) → s ≡ goes_on a → P (k a))
    → P (elim s [ failed q ↦ refused q | goes_on a ↦ k a ])
Received-elim P (failed q) k fails goes = fails q refl
Received-elim P (goes_on a) k fails goes = goes a refl

applied_sound : (n : ℕ) (f : Fetch) → IsFetchSound n f → IsQueueSound (applied f)
unfolding applied cursor_of
applied_sound n f s = elim (Bool-cases (ltb (cursor_of f.work.queue) f.new_cursor)) [
  | inl e ↦ rw e s.later
  | inr e ↦
      let same : f.new_cursor ≡ cursor_of f.work.queue = ground (arith, s.ahead, s.cursor) in
      rw e (subst (λ k. IsSound k (view f.work)) same s.later)
]

module _ (c : Context) (r : Request) where
  commit_batch_sound :
      (n : ℕ) (f : Fetch) (x : Commit) → IsFetchSound n f → IsQueueSound (left (commit_batch x f))
  unfolding commit_batch
  commit_batch_sound n f rejected s = rw s.cursor s.now
  commit_batch_sound n f unsynced s = applied_sound n f s
  commit_batch_sound n f committed s = applied_sound n f s

  finish_sound : (n : ℕ) (f : Fetch) → IsFetchSound n f → IsQueueSound (left (finish c f))
  unfolding finish
  finish_sound n f s =
      elim (Bool-cases (f.work.staged || ltb (cursor_of f.work.queue) f.new_cursor)) [
        | inl e ↦ rw e (commit_batch_sound n f c.commit s)
        | inr e ↦ rw e (rw s.cursor s.now)
      ]

  -- No step of the first phase writes a message.
  abbrev pub KeepsMsgs : Table (List ℕ) → Step Work → Type 0
  KeepsMsgs t (failed q) = q.msgs ≡ t
  KeepsMsgs t (goes_on w) = w.queue.msgs ≡ t

  dead_lettered-msgs :
      (t : Table (List ℕ)) (red : Redeliver) (w : Work) (x : Queue × Bool)
      → x.0.msgs ≡ w.queue.msgs
      → w.queue.msgs ≡ t
      → KeepsMsgs t (dead_lettered red w x)
  unfolding dead_lettered
  dead_lettered-msgs t red w (q, true) e h = e ∙ h
  dead_lettered-msgs t red w (q, false) e h = e ∙ h

  pub redeliver_one-msgs :
      (t : Table (List ℕ)) (red : Redeliver) (w : Work)
      → w.queue.msgs ≡ t
      → KeepsMsgs t (redeliver_one c r red w)
  redeliver_one-msgs t red w h =
      redeliver_cases c r (KeepsMsgs t) red w (λ e. (unfold orphaned in h)) h
        (λ raw m e f g.
          dead_lettered-msgs t red w (move_to_dlq c w.queue red.offset m red.attempts exhausted)
            (move_cases c r w.queue red.offset m red.attempts exhausted).1 h)
        (λ raw m e f g. (unfold redelivered in h))

  pub redeliver_all-msgs :
      (t : Table (List ℕ)) (reds : List Redeliver) (w : Work)
      → w.queue.msgs ≡ t
      → KeepsMsgs t (redeliver_all c r reds w)
  unfolding redeliver_all
  redeliver_all-msgs t [] w h = h
  redeliver_all-msgs t (red ∷ reds) w h =
      Step-elim (KeepsMsgs t) (redeliver_one c r red w) (redeliver_all c r reds)
        (λ q e. subst (KeepsMsgs t) e (redeliver_one-msgs t red w h))
        (λ w' e.
          redeliver_all-msgs t reds w' (subst (KeepsMsgs t) e (redeliver_one-msgs t red w h)))

  renew_all-queue :
      (es : List (ℕ × Inflight)) (w : Work) → (renew_all r c.now_ms es w).queue ≡ w.queue
  unfolding renew_all
  renew_all-queue [] w = refl
  renew_all-queue (e ∷ es) w = renew_all-queue es _

  pub start-msgs : (q : Queue) → (start r c.now_ms q).queue.msgs ≡ q.msgs
  unfolding start
  start-msgs q = rw (renew_all-queue (scan_inflight r c.now_ms r.max_msgs q.inflight).renews _) refl

  -- A call of receiveOnce, whatever it meets (orphans, dead letters that fail, a broken record, a
  -- refused or an unsynced batch), leaves a queue whose delivery records stand in the order of
  -- their offsets, all before the cursor, with at most one of them holding the order lock, if they
  -- did so before and the stored messages are in the order of their offsets.
  pub receive_once-IsSound :
      (q : Queue)
      → IsStored c.decode 0 q.msgs
      → IsQueueSound q
      → IsQueueSound (left (receive_once c r q))
  unfolding receive_once
  receive_once-IsSound q st s =
      let first = first_phase_sound c r (cursor_of q) q refl s in
      let msgs =
        redeliver_all-msgs q.msgs (scan_inflight r c.now_ms r.max_msgs q.inflight).reds
          (start r c.now_ms q) (start-msgs q) in
      Received-elim (λ x. IsQueueSound (left x)) _
        (λ w. elim (fetch_phase c r w) [ failed q' ↦ refused q' | goes_on f ↦ finish c f ])
        (λ q' e. let h = subst (StepSound c r (cursor_of q)) e first in rw h.0 h.1)
        (λ w e.
          let second =
            fetch_phase_sound c r (cursor_of q) w (rw (subst (KeepsMsgs q.msgs) e msgs) st)
              (subst (StepSound c r (cursor_of q)) e first) in
          Received-elim (λ x. IsQueueSound (left x)) (fetch_phase c r w) (finish c)
            (λ q' g. let h = subst (FetchSound c r (cursor_of q)) g second in rw h.0 h.1)
            (λ f g. finish_sound (cursor_of q) f (subst (FetchSound c r (cursor_of q)) g second)))

  abbrev KeepsFetchMsgs : Table (List ℕ) → Step Fetch → Type 0
  KeepsFetchMsgs t (failed q) = q.msgs ≡ t
  KeepsFetchMsgs t (goes_on f) = f.work.queue.msgs ≡ t

  abbrev KeepsVisitMsgs : Table (List ℕ) → Visit → Type 0
  KeepsVisitMsgs t broken = Unit {0}
  KeepsVisitMsgs t (ends f) = f.work.queue.msgs ≡ t
  KeepsVisitMsgs t (continues f) = f.work.queue.msgs ≡ t

  fetch_all-msgs :
      (t : Table (List ℕ)) (budget : ℕ) (rest : Table (List ℕ)) (f : Fetch)
      → f.work.queue.msgs ≡ t
      → KeepsFetchMsgs t (fetch_all c r budget rest f)
  unfolding fetch_all
  fetch_all-msgs t zero rest f h = h
  fetch_all-msgs t (suc budget) [] f h = h
  fetch_all-msgs t (suc budget) ((key, raw) ∷ rest) f h =
      Visit-elim c r (KeepsVisitMsgs t) (KeepsFetchMsgs t) (visit c r raw f) f.work.queue
        (fetch_all c r budget rest)
        (visit_cases c r (KeepsVisitMsgs t) raw f (λ e. tt) (λ m e g. (unfold skipped_one in h))
          (λ m e l. h) (λ m e g l. (unfold delivered_one in (λ x. h, h))))
        h (λ f' h'. h') (λ f' h'. fetch_all-msgs t budget rest f' h')

  fetch_phase-msgs :
      (t : Table (List ℕ)) (w : Work) → w.queue.msgs ≡ t → KeepsFetchMsgs t (fetch_phase c r w)
  unfolding fetch_phase merge_skips fetch_start
  fetch_phase-msgs t w h = elim (Bool-cases (ltb (length w.out) r.max_msgs)) [
    | inr e ↦ rw e h
    | inl e ↦
        let whole =
          fetch_all-msgs t scan_budget (from_offset (cursor_of w.queue) w.queue.msgs)
            (fetch_start w) h in
        rw e (
          Step-elim (KeepsFetchMsgs t)
            (fetch_all c r scan_budget (from_offset (cursor_of w.queue) w.queue.msgs)
              (fetch_start w))
            (λ f. goes_on (merge_skips f)) (λ q g. subst (KeepsFetchMsgs t) g whole)
            (λ f g. subst (KeepsFetchMsgs t) g whole))
  ]

  finish-msgs :
      (t : Table (List ℕ)) (f : Fetch) → f.work.queue.msgs ≡ t → (left (finish c f)).msgs ≡ t
  unfolding finish commit_batch applied
  finish-msgs t f h = ground (arith, c.commit)

  -- A call of receiveOnce leaves the stored messages as they are.
  pub receive_once-msgs : (q : Queue) → (left (receive_once c r q)).msgs ≡ q.msgs
  unfolding receive_once
  receive_once-msgs q =
      let first =
        redeliver_all-msgs q.msgs (scan_inflight r c.now_ms r.max_msgs q.inflight).reds
          (start r c.now_ms q) (start-msgs q) in
      Received-elim (λ x. (left x).msgs ≡ q.msgs) _
        (λ w. elim (fetch_phase c r w) [ failed q' ↦ refused q' | goes_on f ↦ finish c f ])
        (λ q' e. subst (KeepsMsgs q.msgs) e first)
        (λ w e.
          let second = fetch_phase-msgs q.msgs w (subst (KeepsMsgs q.msgs) e first) in
          Received-elim (λ x. (left x).msgs ≡ q.msgs) (fetch_phase c r w) (finish c)
            (λ q' g. subst (KeepsFetchMsgs q.msgs) g second)
            (λ f g. finish-msgs q.msgs f (subst (KeepsFetchMsgs q.msgs) g second)))
