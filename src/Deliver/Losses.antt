-- ===== src/Deliver/Losses.antt =====
-- No message is lost between the cursors before and after a receive.
use sq.Common.{
  ℕ, ◌≤◌, ◌<◌, ◌≡◌, refl, sym, arith, ◌||◌, List, [], ◌∷◌, Bool-cases, inl, inr, ltb, subst, length,
  All,
}
use sq.Deliver.Table.{Table}
use sq.Deliver.State.{Queue, cursor_of, Context, Commit, rejected, unsynced, committed}
use sq.Deliver.Receive.{
  Request, Work, Step, failed, goes_on, Fetch, fetch_all, fetch_phase, fetch_start, from_offset,
  merge_skips, scan_budget, refused, applied, commit_batch, finish, receive_once, scan_inflight,
  start,
}
use sq.Deliver.Redelivery.{StepSound}
use sq.Deliver.Loops.{Step-elim, first_phase_sound}
use sq.Deliver.Fetching.{IsStored, from_offset-IsStored, FetchSound, fetch_phase_sound}
use sq.Deliver.Receiving.{
  IsQueueSound, left, Received-elim, KeepsMsgs, redeliver_all-msgs, start-msgs,
}
use sq.Deliver.Passed.{IsAccounted, IsPassed, FetchPasses, fetch_all-Passes}

module _ (c : Context) (r : Request) where
  All-from :
      (n : ℕ) (P : ℕ × List ℕ → Type 0) (t : Table (List ℕ)) → All P t → All (λ e. n ≤ e.0 → P e) t
  All-from n P [] all = tt
  All-from n P (e ∷ t) (p, all) = (λ h. p, All-from n P t all)

  -- From the records at or after an offset to all records.
  All-from_offset :
      (n : ℕ) (P : ℕ × List ℕ → Type 0) (t : Table (List ℕ))
      → All P (from_offset n t)
      → All (λ e. n ≤ e.0 → P e) t
  unfolding from_offset
  All-from_offset n P [] all = tt
  All-from_offset n P ((key, raw) ∷ t) all = elim (Bool-cases (ltb key n)) [
    | inl e ↦ (λ h. absurd (ground arith), All-from_offset n P t (rw e at all))
    | inr e ↦ let both = rw e at all in (λ h. both.0, All-from n P t both.1)
  ]

  -- Between the two cursors every stored message is accounted for.
  abbrev pub LosesNone : ℕ → Queue → Table (List ℕ) → Type 0
  LosesNone n q t = All (λ e. n ≤ e.0 → e.0 < cursor_of q → IsAccounted c r q.inflight e) t

  still : (n : ℕ) (q : Queue) (t : Table (List ℕ)) → cursor_of q ≤ n → LosesNone n q t
  still n q [] h = tt
  still n q ((key, raw) ∷ t) h = (λ a b. absurd (omega arith), still n q t h)

  abbrev PhasePasses : ℕ → Table (List ℕ) → Step Fetch → Type 0
  PhasePasses n t (failed q) = Unit {0}
  PhasePasses n t (goes_on f) = All (λ e. n ≤ e.0 → IsPassed c r f e) t

  start_passes :
      (n : ℕ) (w : Work) (t : Table (List ℕ))
      → cursor_of w.queue ≡ n
      → PhasePasses n t (goes_on (fetch_start w))
  unfolding fetch_start
  start_passes n w [] h = tt
  start_passes n w ((key, raw) ∷ t) h = (λ a b. absurd (omega arith), start_passes n w t h)

  fetch_phase_passes :
      (n : ℕ) (w : Work)
      → cursor_of w.queue ≡ n
      → IsStored c.decode 0 w.queue.msgs
      → PhasePasses n w.queue.msgs (fetch_phase c r w)
  unfolding fetch_phase merge_skips
  fetch_phase_passes n w h st = elim (Bool-cases (ltb (length w.out) r.max_msgs)) [
    | inr e ↦ rw e (start_passes n w w.queue.msgs h)
    | inl e ↦
        let from = from_offset (cursor_of w.queue) w.queue.msgs in
        let whole = fetch_all-Passes c r scan_budget from (fetch_start w) (
          unfold fetch_start in
          from_offset-IsStored c.decode 0 (cursor_of w.queue) w.queue.msgs (omega arith) st) in
        rw e (
          Step-elim (PhasePasses n w.queue.msgs) (fetch_all c r scan_budget from (fetch_start w))
            (λ f. goes_on (merge_skips f)) (λ q g. tt)
            (λ f g.
              let passes = subst (FetchPasses c r (fetch_start w) from) g whole in
              rw (sym h)
                (All-from_offset (cursor_of w.queue) (IsPassed c r f) w.queue.msgs passes.1)))
  ]

  applied-LosesNone :
      (n : ℕ) (f : Fetch) (t : Table (List ℕ))
      → cursor_of f.work.queue ≡ n
      → All (λ e. n ≤ e.0 → IsPassed c r f e) t
      → LosesNone n (applied f) t
  unfolding applied cursor_of
  applied-LosesNone n f t h all = elim (Bool-cases (ltb (cursor_of f.work.queue) f.new_cursor)) [
    | inl e ↦ rw e all
    | inr e ↦ still n (applied f) t (rw e (omega (arith, h)))
  ]

  finish-LosesNone :
      (n : ℕ) (f : Fetch) (t : Table (List ℕ))
      → cursor_of f.work.queue ≡ n
      → All (λ e. n ≤ e.0 → IsPassed c r f e) t
      → LosesNone n (left (finish c f)) t
  unfolding finish
  finish-LosesNone n f t h all =
      elim (Bool-cases (f.work.staged || ltb (cursor_of f.work.queue) f.new_cursor)) [
        | inl e ↦ rw e (by_commit c.commit)
        | inr e ↦ rw e (still n f.work.queue t (omega (arith, h)))
      ]
    where
      by_commit : (x : Commit) → LosesNone n (left (commit_batch x f)) t
      by_commit rejected = (unfold commit_batch in still n f.work.queue t (omega (arith, h)))
      by_commit unsynced = (unfold commit_batch in applied-LosesNone n f t h all)
      by_commit committed = (unfold commit_batch in applied-LosesNone n f t h all)

  -- A receive loses no message, whatever it meets: every stored message that the cursor passes is
  -- one that the filter does not let through, or has its delivery recorded in the queue that the
  -- call leaves, if the stored messages are in the order of their offsets and the records are sound
  -- before the call.
  pub receive_once-LosesNone :
      (q : Queue)
      → IsStored c.decode 0 q.msgs
      → IsQueueSound q
      → LosesNone (cursor_of q) (left (receive_once c r q)) q.msgs
  unfolding receive_once
  receive_once-LosesNone q st s =
      let n = cursor_of q in
      let sound = first_phase_sound c r n q refl s in
      let msgs =
        redeliver_all-msgs c r q.msgs (scan_inflight r c.now_ms r.max_msgs q.inflight).reds
          (start r c.now_ms q) (start-msgs c r q) in
      Received-elim (λ x. LosesNone n (left x) q.msgs) _
        (λ w. elim (fetch_phase c r w) [ failed q' ↦ refused q' | goes_on f ↦ finish c f ])
        (λ q' e. still n q' q.msgs (omega (arith, (subst (StepSound c r n) e sound).0)))
        (λ w e.
          let good = subst (StepSound c r n) e sound in
          let same = subst (KeepsMsgs c r q.msgs) e msgs in
          let phase = fetch_phase_sound c r n w (rw same st) good in
          let passes : PhasePasses n q.msgs (fetch_phase c r w) =
            subst (λ t. PhasePasses n t (fetch_phase c r w)) same
              (fetch_phase_passes n w good.cursor (rw same st)) in
          Received-elim (λ x. LosesNone n (left x) q.msgs) (fetch_phase c r w) (finish c)
            (λ q' g. still n q' q.msgs (omega (arith, (subst (FetchSound c r n) g phase).0)))
            (λ f g.
              finish-LosesNone n f q.msgs (subst (FetchSound c r n) g phase).cursor
                (subst (PhasePasses n q.msgs) g passes)))
