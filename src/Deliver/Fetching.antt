-- ===== src/Deliver/Fetching.antt =====
-- The second phase of receiveOnceLocked, and the whole call: the invariant is kept on every path.
use sq.Common.{
  ℕ, zero, suc, ◌+◌, ◌≤◌, ◌<◌, ◌≡◌, arith, true, false, ◌&&◌, List, [], ◌∷◌, Option, none, some,
  Bool-cases, Option-cases, inl, inr, ltb, ltb→lt, subst, length, ◌^◌,
}
use sq.Message.{Message}
use sq.Deliver.Table.{Table}
use sq.Deliver.Lease.{milliseconds}
use sq.Deliver.State.{Queue, cursor_of, Context}
use sq.Deliver.Receive.{
  Request, Work, Step, failed, goes_on, Fetch, Visit, broken, ends, continues, visit, skipped_one,
  delivered_one, fetch_all, fetch_phase, fetch_start, from_offset, merge_skips, next_offset,
  is_ordered, is_true, new_inflight, apply_writes, apply_write, scan_budget,
}
use sq.Deliver.Marks.{Free, ordered_at-insert}
use sq.Deliver.Invariant.{IsSound, IsWorkSound, view, insert-IsSound, grow-IsSound}
use sq.Deliver.Loops.{Step-elim}

-- The stored messages stand in the order of their offsets, each under its own, below the last
-- number that an offset can take. Append writes them so.
abbrev pub IsStored : (List ℕ → Option Message) → ℕ → Table (List ℕ) → Type 0
IsStored decode n [] = Unit {0}
IsStored decode n ((key, raw) ∷ t) =
    (n ≤ key)
    × (key + 1 < 2 ^ 64)
    × ((m : Message) → decode raw ≡ some m → m.offset ≡ key)
    × IsStored decode (key + 1) t

-- The variables of the second phase: the new cursor is ahead of every record.
pub record IsFetchSound (n : ℕ) (f : Fetch) : Type 0 where
  pub cursor : cursor_of f.work.queue ≡ n
  pub ahead : n ≤ f.new_cursor
  pub now : IsSound n f.work.queue.inflight
  pub later : IsSound f.new_cursor (view f.work)
  pub free : Free f.work.ordered_busy (view f.work)

pub from_offset-IsStored :
    (decode : List ℕ → Option Message) (k n : ℕ) (t : Table (List ℕ))
    → k ≤ n
    → IsStored decode k t
    → IsStored decode n (from_offset n t)
unfolding from_offset
from_offset-IsStored decode k n [] h s = tt
from_offset-IsStored decode k n ((key, raw) ∷ t) h (a, b, d, s) = elim (Bool-cases (ltb key n)) [
  | inl e ↦ rw e (from_offset-IsStored decode (key + 1) n t (omega (arith, ltb→lt key n e)) s)
  | inr e ↦ rw e (ground arith, b, d, s)
]

module _ (c : Context) (r : Request) where
  abbrev pub VisitSound : ℕ → ℕ → Visit → Type 0
  VisitSound n key broken = Unit {0}
  VisitSound n key (ends f) = IsFetchSound n f
  VisitSound n key (continues f) = IsFetchSound n f × (f.new_cursor ≡ key + 1)

  next_lem : (key : ℕ) → key + 1 < 2 ^ 64 → next_offset key ≡ key + 1
  next_lem key h = omega arith

  skipped_one_sound :
      (n key : ℕ) (m : Message) (f : Fetch)
      → m.offset ≡ key
      → key + 1 < 2 ^ 64
      → f.new_cursor ≤ key
      → IsFetchSound n f
      → IsFetchSound n (skipped_one r m f) × ((skipped_one r m f).new_cursor ≡ key + 1)
  unfolding skipped_one
  skipped_one_sound n key m f e b h s =
      let same : next_offset m.offset ≡ key + 1 = omega arith in
      (
        record {
          cursor = s.cursor;
          ahead = omega (arith, s.ahead);
          now = s.now;
          later =
              grow-IsSound f.new_cursor (next_offset m.offset) (view f.work) (omega arith) s.later;
          free = s.free;
        },
        same,
      )

  delivered_one_sound :
      (n key : ℕ) (m : Message) (f : Fetch)
      → m.offset ≡ key
      → key + 1 < 2 ^ 64
      → f.new_cursor ≤ key
      → is_ordered m && f.work.ordered_busy ≡ false
      → IsFetchSound n f
      → IsFetchSound n (delivered_one c r m f) × ((delivered_one c r m f).new_cursor ≡ key + 1)
  unfolding delivered_one apply_writes apply_write new_inflight
  delivered_one_sound n key m f e b h lock s =
      let same : next_offset m.offset ≡ key + 1 = omega arith in
      (
        record {
          cursor = s.cursor;
          ahead = omega (arith, s.ahead);
          now = s.now;
          later =
              insert-IsSound f.new_cursor (next_offset m.offset) m.offset _ (view f.work) s.later
                (omega arith) (omega arith) (λ o i. s.free (ground arith) i);
          free = λ o i. ground (
            arith,
            ordered_at-insert m.offset i
                (new_inflight r c.now_ms (c.now_ms + milliseconds r.invisible) 1 (is_ordered m))
                (view f.work),
            s.free,
            s.free (ground arith) i,
          );
        },
        same,
      )

  -- The ways a visit can go.
  pub visit_cases :
      (P : Visit → Type 0) (raw : List ℕ) (f : Fetch)
      → (c.decode raw ≡ none → P broken)
      → ((m : Message)
          → c.decode raw ≡ some m
          → is_true (r.filter.matches m) ≡ false
          → P (continues (skipped_one r m f)))
      → ((m : Message)
          → c.decode raw ≡ some m
          → is_ordered m && f.work.ordered_busy ≡ true
          → P (ends f))
      → ((m : Message)
          → c.decode raw ≡ some m
          → is_true (r.filter.matches m) ≡ true
          → is_ordered m && f.work.ordered_busy ≡ false
          → (length (delivered_one c r m f).work.out < r.max_msgs
              → P (continues (delivered_one c r m f)))
            × P (ends (delivered_one c r m f)))
      → P (visit c r raw f)
  unfolding visit
  visit_cases P raw f bad skip lock hand = elim (Option-cases (c.decode raw)) [
    | inl e ↦ rw (visit, e) (bad e)
    | inr (m, e) ↦ elim (Bool-cases (is_true (r.filter.matches m))) [
      | inr g ↦ rw (visit, e, g) (skip m e g)
      | inl g ↦ elim (Bool-cases (is_ordered m && f.work.ordered_busy)) [
        | inl l ↦ rw (visit, e, g, l) (lock m e l)
        | inr l ↦ elim (Bool-cases (ltb (length (delivered_one c r m f).work.out) r.max_msgs)) [
          | inl x ↦ rw (visit, e, g, l, x) ((hand m e g l).0 (ltb→lt _ _ x))
          | inr x ↦ rw (visit, e, g, l, x) (hand m e g l).1
        ]
      ]
    ]
  ]

  visit_sound :
      (n key : ℕ) (raw : List ℕ) (f : Fetch)
      → f.new_cursor ≤ key
      → key + 1 < 2 ^ 64
      → ((m : Message) → c.decode raw ≡ some m → m.offset ≡ key)
      → IsFetchSound n f
      → VisitSound n key (visit c r raw f)
  visit_sound n key raw f h b own s =
      visit_cases (VisitSound n key) raw f (λ e. tt)
        (λ m e g. skipped_one_sound n key m f (own m e) b h s) (λ m e l. s)
        (λ m e g l. let d = delivered_one_sound n key m f (own m e) b h l s in (λ x. d, d.0))

  abbrev pub FetchSound : ℕ → Step Fetch → Type 0
  FetchSound n (failed q) = (cursor_of q ≡ n) × IsSound n q.inflight
  FetchSound n (goes_on f) = IsFetchSound n f

  -- A visit that goes on into the rest of the scan.
  pub Visit-elim :
      (P : Visit → Type 0) (R : Step Fetch → Type 0) (v : Visit) (q : Queue)
      (k : Fetch → Step Fetch)
      → P v
      → R (failed q)
      → ((f : Fetch) → P (ends f) → R (goes_on f))
      → ((f : Fetch) → P (continues f) → R (k f))
      → R (elim v [ broken ↦ failed q | ends f ↦ goes_on f | continues f ↦ k f ])
  Visit-elim P R broken q k p bad stop more = bad
  Visit-elim P R (ends f) q k p bad stop more = stop f p
  Visit-elim P R (continues f) q k p bad stop more = more f p

  pub fetch_all_sound :
      (n budget : ℕ) (t : Table (List ℕ)) (f : Fetch)
      → IsStored c.decode f.new_cursor t
      → IsFetchSound n f
      → FetchSound n (fetch_all c r budget t f)
  unfolding fetch_all
  fetch_all_sound n zero t f st s = s
  fetch_all_sound n (suc budget) [] f st s = s
  fetch_all_sound n (suc budget) ((key, raw) ∷ t) f (h, b, own, st) s =
      Visit-elim (VisitSound n key) (FetchSound n) (visit c r raw f) f.work.queue
        (fetch_all c r budget t) (visit_sound n key raw f h b own s) (s.cursor, s.now) (λ f' s'. s')
        (λ f' s'. fetch_all_sound n budget t f' (rw s'.1 st) s'.0)

  fetch_start_sound : (n : ℕ) (w : Work) → IsWorkSound n w → IsFetchSound n (fetch_start w)
  unfolding fetch_start
  fetch_start_sound n w s = record {
    cursor = s.cursor;
    ahead = omega (arith, s.cursor);
    now = s.now;
    later = rw s.cursor s.later;
    free = s.free;
  }

  pub fetch_phase_sound :
      (n : ℕ) (w : Work)
      → IsStored c.decode 0 w.queue.msgs
      → IsWorkSound n w
      → FetchSound n (fetch_phase c r w)
  unfolding fetch_phase merge_skips cursor_of
  fetch_phase_sound n w st s =
      let whole =
        fetch_all_sound n scan_budget (from_offset (cursor_of w.queue) w.queue.msgs) (fetch_start w)
          (unfold fetch_start in
            from_offset-IsStored c.decode 0 (cursor_of w.queue) w.queue.msgs (omega arith) st)
          (fetch_start_sound n w s) in
      elim (Bool-cases (ltb (length w.out) r.max_msgs)) [
        | inl e ↦ rw e (
            Step-elim (FetchSound n)
              (fetch_all c r scan_budget (from_offset (cursor_of w.queue) w.queue.msgs)
                (fetch_start w))
              (λ f. goes_on (merge_skips f)) (λ q g. subst (FetchSound n) g whole)
              (λ f g.
                let s' = subst (FetchSound n) g whole in
                record {
                  cursor = s'.cursor;
                  ahead = s'.ahead;
                  now = s'.now;
                  later = s'.later;
                  free = s'.free;
                }))
        | inr e ↦ rw e (fetch_start_sound n w s)
      ]
