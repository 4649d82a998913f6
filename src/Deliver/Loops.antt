-- ===== src/Deliver/Loops.antt =====
-- The loops of receiveOnceLocked over the candidates of the scan: the renewals, then the
-- redeliveries.
use sq.Common.{
  ℕ, ◌+◌, ◌≡◌, ◌≢◌, refl, sym, ◌∙◌, arith, true, false, List, [], ◌∷◌, some, subst, All,
}
use sq.Deliver.Table.{Table, lookup}
use sq.Deliver.Lease.{Inflight, renewed}
use sq.Deliver.State.{Queue, cursor_of, Context}
use sq.Deliver.Receive.{
  Request, Work, Step, failed, goes_on, Redeliver, apply_writes, apply_write, set_inflight,
  redeliver_one, redeliver_all, renew_all, start, scan_inflight,
}
use sq.Deliver.Scan.{RedsAscend, RedsAscend-weaken, IsRed, IsRenewal, scan_inflight-Scanned}
use sq.Deliver.Marks.{
  ordered_at, present, Untouched, ordered_at-insert, present-insert, ordered_at-lookup,
}
use sq.Deliver.Invariant.{IsSound, IsWorkSound, IsPending, view, rewrite-IsSound}
use sq.Deliver.Redelivery.{StepSound, redeliver_one_sound, All-IsPending}

-- A step that goes on into a second one.
pub Step-elim :
    {A B : Type 0} (P : Step B → Type 0) (s : Step A) (k : A → Step B)
    → ((q : Queue) → s ≡ failed q → P (failed q))
    → ((a : A) → s ≡ goes_on a → P (k a))
    → P (elim s [ failed q ↦ failed q | goes_on a ↦ k a ])
Step-elim P (failed q) k fails goes = fails q refl
Step-elim P (goes_on a) k fails goes = goes a refl

module _ (c : Context) (r : Request) where
  pub redeliver_all_sound :
      (n : ℕ) (reds : List Redeliver) (w : Work)
      → RedsAscend 0 reds
      → All (IsPending w) reds
      → IsWorkSound n w
      → StepSound c r n (redeliver_all c r reds w)
  unfolding redeliver_all
  redeliver_all_sound n [] w a all s = s
  redeliver_all_sound n (red ∷ reds) w (h, a) (p, all) s =
      Step-elim (StepSound c r n) (redeliver_one c r red w) (redeliver_all c r reds)
        (λ q e. subst (StepSound c r n) e (redeliver_one_sound c r n red w s p))
        (λ w' e.
          redeliver_all_sound n reds w' (RedsAscend-weaken 0 (red.offset + 1) reds (omega arith) a)
            (All-IsPending c r red reds w w' a all e)
            (subst (StepSound c r n) e (redeliver_one_sound c r n red w s p)))

-- The batch so far leaves every record, and every hold on the lock, where it was.
abbrev pub Agrees : Table Inflight → Work → Type 0
Agrees t w = (i : ℕ) → (ordered_at i (view w) ≡ ordered_at i t) × (present i (view w) ≡ present i t)

module _ (r : Request) (now : ℕ) where
  renewed_ordered : (st : Inflight) → (renewed now r.invisible st).ordered ≡ st.ordered
  unfolding renewed
  renewed_ordered st = refl

  -- One renewal.
  abbrev renew_one : ℕ → Inflight → Work → Work
  renew_one k st w = record w {
    writes = set_inflight k (renewed now r.invisible st) ∷ w.writes;
    staged = true;
  }

  renew_one-Agrees :
      (t : Table Inflight) (k : ℕ) (st : Inflight) (w : Work)
      → lookup k t ≡ some st
      → Agrees t w
      → Agrees t (renew_one k st w)
  unfolding apply_writes apply_write
  renew_one-Agrees t k st w e a i =
      let (o, p) = ordered_at-lookup k t e in
      (
        ground (
          arith,
          ordered_at-insert k i (renewed now r.invisible st) (view w),
          a i,
          o,
          renewed_ordered st,
        ),
        ground (arith, present-insert k i (renewed now r.invisible st) (view w), a i, p),
      )

  renew_one_sound :
      (n : ℕ) (t : Table Inflight) (k : ℕ) (st : Inflight) (w : Work)
      → lookup k t ≡ some st
      → Agrees t w
      → IsWorkSound n w
      → IsWorkSound n (renew_one k st w)
  unfolding apply_writes apply_write
  renew_one_sound n t k st w e a s =
      let (o, p) = ordered_at-lookup k t e in
      let same : (renewed now r.invisible st).ordered ≡ ordered_at k (view w) =
        renewed_ordered st ∙ sym o ∙ sym (a k).0 in
      record {
        cursor = s.cursor;
        now = s.now;
        later = rewrite-IsSound n k _ (view w) s.later (s.later.below k ((a k).1 ∙ p)) same;
        free = λ h i. ground (
          arith,
          ordered_at-insert k i (renewed now r.invisible st) (view w),
          s.free h i,
          s.free h k,
          same,
        );
      }

  pub renew_all_sound :
      (n : ℕ) (t : Table Inflight) (es : List (ℕ × Inflight)) (w : Work)
      → All (IsRenewal r now 0 t) es
      → Agrees t w
      → IsWorkSound n w
      → IsWorkSound n (renew_all r now es w)
        × Agrees t (renew_all r now es w)
        × ((renew_all r now es w).queue ≡ w.queue)
  unfolding renew_all
  renew_all_sound n t [] w all a s = (s, a, refl)
  renew_all_sound n t ((k, st) ∷ es) w (h, all) a s =
      renew_all_sound n t es (renew_one k st w) all (renew_one-Agrees t k st w h.found a)
        (renew_one_sound n t k st w h.found a s)

  renew_all-Untouched :
      (j : ℕ) (es : List (ℕ × Inflight)) (w : Work)
      → All (λ e. e.0 ≢ j) es
      → Untouched j w.writes
      → Untouched j (renew_all r now es w).writes
  unfolding renew_all
  renew_all-Untouched j [] w all u = u
  renew_all-Untouched j ((k, st) ∷ es) w (h, all) u =
      renew_all-Untouched j es (renew_one k st w) all (h, u)

  -- No record is both renewed and redelivered.
  apart :
      (t : Table Inflight) (red : Redeliver) (es : List (ℕ × Inflight))
      → IsRed r now 0 t red
      → All (IsRenewal r now 0 t) es
      → All (λ e. e.0 ≢ red.offset) es
  apart t red [] a all = tt
  apart t red ((k, st) ∷ es) a (h, all) =
      (λ e. ground (arith, a.found, rw e at h.found, a.not_renewed, h.renews), apart t red es a all)

module _ (c : Context) (r : Request) where
  abbrev pub begun : Queue → Work
  begun q = record {
    queue = q;
    writes = [];
    staged = false;
    out = [];
    ordered_busy = (scan_inflight r c.now_ms r.max_msgs q.inflight).ordered_busy;
  }

  pub begun_sound :
      (n : ℕ) (q : Queue) → cursor_of q ≡ n → IsSound n q.inflight → IsWorkSound n (begun q)
  unfolding apply_writes
  begun_sound n q e s = record {
    cursor = e;
    now = s;
    later = s;
    free = (scan_inflight-Scanned r c.now_ms r.max_msgs 0 q.inflight s.ascends).free;
  }

  pub begun-Agrees : (q : Queue) → Agrees q.inflight (begun q)
  unfolding apply_writes
  begun-Agrees q i = (refl, refl)

  pub All-start :
      (q : Queue) (w : Work) (reds : List Redeliver) (es : List (ℕ × Inflight))
      → w ≡ renew_all r c.now_ms es (begun q)
      → All (IsRenewal r c.now_ms 0 q.inflight) es
      → w.queue ≡ q
      → All (IsRed r c.now_ms 0 q.inflight) reds
      → All (IsPending w) reds
  All-start q w [] es e renewals same all = tt
  All-start q w (red ∷ reds) es e renewals same (a, all) = (
    record {
      st = a.st;
      found = rw same a.found;
      same_attempts = a.same_attempts;
      same_ordered = a.same_ordered;
      untouched = rw e (
          renew_all-Untouched r c.now_ms red.offset es (begun q)
            (apart r c.now_ms q.inflight red es a renewals) tt);
    },
    All-start q w reds es e renewals same all,
  )

  -- The first phase, renewals and redeliveries, keeps the records sound, whether it ends in an
  -- error or goes on.
  pub first_phase_sound :
      (n : ℕ) (q : Queue)
      → cursor_of q ≡ n
      → IsSound n q.inflight
      → StepSound c r n (
          redeliver_all c r
            (scan_inflight r c.now_ms r.max_msgs q.inflight).reds
            (start r c.now_ms q))
  unfolding start
  first_phase_sound n q e s =
      let scan = scan_inflight r c.now_ms r.max_msgs q.inflight in
      let found = scan_inflight-Scanned r c.now_ms r.max_msgs 0 q.inflight s.ascends in
      let (sound, agrees, same) =
        renew_all_sound r c.now_ms n q.inflight scan.renews (begun q) found.renewals
          (begun-Agrees q) (begun_sound n q e s) in
      redeliver_all_sound c r n scan.reds _ found.ascend
        (All-start q _ scan.reds scan.renews refl found.renewals same found.reds) sound

  -- Every candidate of the scan is still to be handled when the redeliveries begin.
  pub start-IsPending :
      (n : ℕ) (q : Queue)
      → cursor_of q ≡ n
      → IsSound n q.inflight
      → All (IsPending (start r c.now_ms q)) (scan_inflight r c.now_ms r.max_msgs q.inflight).reds
  unfolding start
  start-IsPending n q e s =
      let scan = scan_inflight r c.now_ms r.max_msgs q.inflight in
      let found = scan_inflight-Scanned r c.now_ms r.max_msgs 0 q.inflight s.ascends in
      let (sound, agrees, same) =
        renew_all_sound r c.now_ms n q.inflight scan.renews (begun q) found.renewals
          (begun-Agrees q) (begun_sound n q e s) in
      All-start q _ scan.reds scan.renews refl found.renewals same found.reds
