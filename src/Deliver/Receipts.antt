-- ===== src/Deliver/Receipts.antt =====
-- The messages that receiveOnce hands out, from the first phase to the answer.
use sq.Common.{
  ℕ, zero, suc, ◌+◌, ◌≤◌, ◌<◌, ◌≡◌, refl, arith, ◌||◌, List, [], ◌∷◌, some, Bool-cases, inl, inr,
  ◌^◌, ltb, ltb→lt, subst, length, length-append, All,
}
use sq.Message.{Message}
use sq.Deliver.Table.{Table}
use sq.Deliver.Lease.{Inflight, milliseconds}
use sq.Deliver.State.{Queue, cursor_of, Context, Commit, rejected, unsynced, committed}
use sq.Deliver.Receive.{
  Request, Work, Step, failed, goes_on, Redeliver, redeliver_all, redeliver_one, Fetch, Visit,
  broken, ends, continues, visit, skipped_one, delivered_one, fetch_all, fetch_phase, fetch_start,
  from_offset, merge_skips, scan_budget, is_ordered, new_inflight, apply_writes, apply_write,
  Received, refused, received, applied, commit_batch, finish, receive_once, scan_inflight, start,
  renew_all, next_offset,
}
use sq.Deliver.Scan.{RedsAscend, scan_inflight-Scanned}
use sq.Deliver.Invariant.{IsSound, IsWorkSound, IsPending, view}
use sq.Deliver.Redelivery.{StepSound, All-IsPending}
use sq.Deliver.Loops.{Step-elim, first_phase_sound, start-IsPending}
use sq.Deliver.Fetching.{IsStored, from_offset-IsStored, visit_cases, Visit-elim}
use sq.Deliver.Receiving.{
  IsQueueSound, Received-elim, KeepsMsgs, redeliver_one-msgs, redeliver_all-msgs, start-msgs,
}
use sq.Deliver.Handed.{
  IsHeld, IsHeldBelow, HandsOut, redeliver_one-HandsOut, still_held, one_held, is_current-present,
}

module _ (c : Context) (r : Request) where
  abbrev Handed : Step Work → Type 0
  Handed (failed q) = Unit {0}
  Handed (goes_on w) = All (IsHeld (view w)) w.out × (length w.out ≤ r.max_msgs)

  forget_below :
      (n : ℕ) (t : Table Inflight) (out : List Message)
      → All (IsHeldBelow n t) out
      → All (IsHeld t) out
  forget_below n t [] all = tt
  forget_below n t (m ∷ out) (a, all) = (a.0, forget_below n t out all)

  redeliver_all-Handed :
      (n : ℕ) (reds : List Redeliver) (w : Work)
      → IsStored c.decode 0 w.queue.msgs
      → RedsAscend n reds
      → All (IsPending w) reds
      → HandsOut c r n (length reds) (goes_on w)
      → Handed (redeliver_all c r reds w)
  unfolding redeliver_all
  redeliver_all-Handed n [] w st a all s = (forget_below n (view w) w.out s.0, omega (arith, s.1))
  redeliver_all-Handed n (red ∷ reds) w st (h, a) (p, all) s =
      let one = redeliver_one-HandsOut c r n (length reds) red w st h p s in
      Step-elim Handed (redeliver_one c r red w) (redeliver_all c r reds) (λ q e. tt)
        (λ w' e.
          redeliver_all-Handed (red.offset + 1) reds w'
            (rw
              (subst (KeepsMsgs c r w.queue.msgs) e
                (redeliver_one-msgs c r w.queue.msgs red w refl))
              st)
            a (All-IsPending c r red reds w w' a all e)
            (subst (HandsOut c r (red.offset + 1) (length reds)) e one))

  renew_all-out :
      (now : ℕ) (es : List (ℕ × Inflight)) (w : Work) → (renew_all r now es w).out ≡ w.out
  unfolding renew_all
  renew_all-out now [] w = refl
  renew_all-out now (e ∷ es) w = renew_all-out now es _

  start-out : (q : Queue) → (start r c.now_ms q).out ≡ []
  unfolding start
  start-out q = renew_all-out c.now_ms (scan_inflight r c.now_ms r.max_msgs q.inflight).renews _

  first_phase-Handed :
      (q : Queue)
      → IsStored c.decode 0 q.msgs
      → IsQueueSound q
      → Handed (
          redeliver_all c r
            (scan_inflight r c.now_ms r.max_msgs q.inflight).reds
            (start r c.now_ms q))
  first_phase-Handed q st s =
      let found = scan_inflight-Scanned r c.now_ms r.max_msgs 0 q.inflight s.ascends in
      redeliver_all-Handed 0 (scan_inflight r c.now_ms r.max_msgs q.inflight).reds
        (start r c.now_ms q) (rw (start-msgs c r q) st) found.ascend
        (start-IsPending c r (cursor_of q) q refl s)
        (rw (start-out q) tt, rw (start-out q) (omega (arith, found.fits)))

  -- The second phase: all that is handed out lies before the new cursor.
  abbrev IsHanded : Fetch → Type 0
  IsHanded f =
      All (IsHeldBelow f.new_cursor (view f.work)) f.work.out × (length f.work.out ≤ r.max_msgs)

  abbrev VisitHanded : ℕ → Visit → Type 0
  VisitHanded key broken = Unit {0}
  VisitHanded key (ends f) = IsHanded f
  VisitHanded key (continues f) =
      IsHanded f × (f.new_cursor ≡ key + 1) × (length f.work.out < r.max_msgs)

  skipped-Handed :
      (key : ℕ) (m : Message) (f : Fetch)
      → m.offset ≡ key
      → key + 1 < 2 ^ 64
      → f.new_cursor ≤ key
      → length f.work.out < r.max_msgs
      → IsHanded f
      → VisitHanded key (continues (skipped_one r m f))
  unfolding skipped_one
  skipped-Handed key m f e b h room (all, fits) =
      let same : next_offset m.offset ≡ key + 1 = omega arith in
      (
        (
          still_held f.new_cursor (next_offset m.offset) (view f.work) (view f.work) f.work.out
              (omega arith) (λ j b. refl) all,
          fits,
        ),
        same,
        room,
      )

  delivered-Handed :
      (key : ℕ) (m : Message) (f : Fetch)
      → m.offset ≡ key
      → key + 1 < 2 ^ 64
      → f.new_cursor ≤ key
      → length f.work.out < r.max_msgs
      → IsHanded f
      → IsHanded (delivered_one c r m f) × ((delivered_one c r m f).new_cursor ≡ key + 1)
  unfolding delivered_one apply_writes apply_write new_inflight
  delivered-Handed key m f e b h room (all, fits) =
      let same : next_offset m.offset ≡ m.offset + 1 = omega arith in
      let st = new_inflight r c.now_ms (c.now_ms + milliseconds r.invisible) 1 (is_ordered m) in
      (
        (
          rw same (
              one_held f.new_cursor m.offset 1 st (view f.work) m f.work.out (omega arith) refl refl
                all),
          omega (arith, length-append f.work.out (record m { delivery_attempt = 1 } ∷ [])),
        ),
        omega (arith, same),
      )

  visit-Handed :
      (key : ℕ) (raw : List ℕ) (f : Fetch)
      → f.new_cursor ≤ key
      → key + 1 < 2 ^ 64
      → ((m : Message) → c.decode raw ≡ some m → m.offset ≡ key)
      → length f.work.out < r.max_msgs
      → IsHanded f
      → VisitHanded key (visit c r raw f)
  visit-Handed key raw f h b own room s =
      visit_cases c r (VisitHanded key) raw f (λ e. tt)
        (λ m e g. skipped-Handed key m f (own m e) b h room s) (λ m e l. s)
        (λ m e g l.
          let d = delivered-Handed key m f (own m e) b h room s in (λ x. (d.0, d.1, x), d.0))

  abbrev FetchHanded : Step Fetch → Type 0
  FetchHanded (failed q) = Unit {0}
  FetchHanded (goes_on f) = IsHanded f

  fetch_all-Handed :
      (budget : ℕ) (t : Table (List ℕ)) (f : Fetch)
      → IsStored c.decode f.new_cursor t
      → length f.work.out < r.max_msgs
      → IsHanded f
      → FetchHanded (fetch_all c r budget t f)
  unfolding fetch_all
  fetch_all-Handed zero t f st room s = s
  fetch_all-Handed (suc budget) [] f st room s = s
  fetch_all-Handed (suc budget) ((key, raw) ∷ t) f (h, b, own, st) room s =
      Visit-elim c r (VisitHanded key) FetchHanded (visit c r raw f) f.work.queue
        (fetch_all c r budget t) (visit-Handed key raw f h b own room s) tt (λ f' s'. s')
        (λ f' (s', e, room'). fetch_all-Handed budget t f' (rw e st) room' s')

  held_below :
      (n : ℕ) (t : Table Inflight) (out : List Message)
      → IsSound n t
      → All (IsHeld t) out
      → All (IsHeldBelow n t) out
  held_below n t [] s all = tt
  held_below n t (m ∷ out) s (a, all) = (
    (a, s.below m.offset (is_current-present t m.offset m.delivery_attempt a)),
    held_below n t out s all,
  )

  fetch_phase-Handed :
      (w : Work)
      → IsStored c.decode 0 w.queue.msgs
      → IsWorkSound (cursor_of w.queue) w
      → Handed (goes_on w)
      → FetchHanded (fetch_phase c r w)
  unfolding fetch_phase merge_skips fetch_start
  fetch_phase-Handed w st s (all, fits) =
      let begin : IsHanded (fetch_start w) =
        (held_below (cursor_of w.queue) (view w) w.out s.later all, fits) in
      elim (Bool-cases (ltb (length w.out) r.max_msgs)) [
        | inr e ↦ rw e begin
        | inl e ↦
            let whole =
              fetch_all-Handed scan_budget (from_offset (cursor_of w.queue) w.queue.msgs)
                (fetch_start w)
                (from_offset-IsStored c.decode 0 (cursor_of w.queue) w.queue.msgs (omega arith) st)
                (ltb→lt _ _ e) begin in
            rw e (
              Step-elim FetchHanded
                (fetch_all c r scan_budget (from_offset (cursor_of w.queue) w.queue.msgs)
                  (fetch_start w))
                (λ f. goes_on (merge_skips f)) (λ q g. tt) (λ f g. subst FetchHanded g whole))
      ]

  -- What a call hands out, by its answer.
  abbrev pub IsReceiptList : Received → Type 0
  IsReceiptList (refused q) = Unit {0}
  IsReceiptList (received q out) = All (IsHeld q.inflight) out × (length out ≤ r.max_msgs)

  finish-IsReceiptList : (f : Fetch) → IsHanded f → IsReceiptList (finish c f)
  unfolding finish
  finish-IsReceiptList f (all, fits) =
      elim (Bool-cases (f.work.staged || ltb (cursor_of f.work.queue) f.new_cursor)) [
        | inl e ↦ rw (IsReceiptList, e) (by_commit c.commit)
        | inr e ↦ rw (IsReceiptList, e) (tt, omega arith)
      ]
    where
      by_commit : (x : Commit) → IsReceiptList (commit_batch x f)
      by_commit rejected = (unfold commit_batch in tt)
      by_commit unsynced = (unfold commit_batch in tt)
      by_commit committed =
          (unfold commit_batch applied in
            (forget_below f.new_cursor (view f.work) f.work.out all, fits))

  -- A call that answers with messages answers with at most max_msgs of them, and every one of them
  -- has its delivery recorded in the queue that the call leaves, under the offset and with the
  -- attempt that its receipt names, if the stored messages are in the order of their offsets and the
  -- records are sound before the call.
  pub receive_once-IsReceiptList :
      (q : Queue) → IsStored c.decode 0 q.msgs → IsQueueSound q → IsReceiptList (receive_once c r q)
  unfolding receive_once
  receive_once-IsReceiptList q st s =
      let first = first_phase-Handed q st s in
      let sound = first_phase_sound c r (cursor_of q) q refl s in
      let msgs =
        redeliver_all-msgs c r q.msgs (scan_inflight r c.now_ms r.max_msgs q.inflight).reds
          (start r c.now_ms q) (start-msgs c r q) in
      Received-elim IsReceiptList _
        (λ w. elim (fetch_phase c r w) [ failed q' ↦ refused q' | goes_on f ↦ finish c f ])
        (λ q' e. tt)
        (λ w e.
          let good = subst (StepSound c r (cursor_of q)) e sound in
          let second =
            fetch_phase-Handed w (rw (subst (KeepsMsgs c r q.msgs) e msgs) st) (rw good.cursor good)
              (subst Handed e first) in
          Received-elim IsReceiptList (fetch_phase c r w) (finish c) (λ q' g. tt)
            (λ f g. finish-IsReceiptList f (subst FetchHanded g second)))
