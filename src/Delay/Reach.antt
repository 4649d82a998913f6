-- ===== src/Delay/Reach.antt =====
-- What can happen to delayed messages: the clock goes on, AppendDelay stages, the counters are
-- invalidated, the scheduler moves what it once read, a client recalls; in any order.
use sq.Common.{
  ℕ, ◌+◌, ◌^◌, ◌≤◌, ◌<◌, ◌≡◌, arith, Bool, true, false, not, List, Option, none, some, ltb, leb,
  ◌==◌, Option-cases, inl, inr, ◌||◌, if-elim, length, bytes_eq,
}
use sq.Message.{Message}
use sq.Deliver.Table.{lookup}
use sq.Deliver.State.{Commit, rejected, unsynced, committed}
use sq.Delay.Staging.{
  Staged, refused, staged, max_body_size, Staging, append_delay, delay_number, invalidate_counters,
  next_delay_seq, stage,
}
use sq.Delay.Scheduler.{
  Appending, Delays, MoveIo, Moved, RecallError, Recalled, answer, append_fails, append_unsynced,
  appended, apply_delete, delete_entry, enqueue, move_message, move_one, not_found, not_leader,
  recall, recall_fails, recalled, store_error, too_late, topic_mismatch,
}

-- The delays and the time.
pub record System : Type 0 where
  pub delays : Delays
  pub now : ℕ

abbrev pub with_staging : System → Staging → System
with_staging s after = record s { delays = record (s.delays) { staging = after } }

module _ (decode : List ℕ → Option Message) where
  -- A move is of an entry that some scan read, however long ago, and that is due; an entry is never
  -- written over, so if it is still there it is what the scan read. The counter of the entries is
  -- below its end.
  pub data Happens : System → System → Type 0 where
    ticks : {s : System} (t : ℕ) → s.now ≤ t → Happens s (record s { now = t })
    invalidates : {s : System} → Happens s (with_staging s (invalidate_counters s.delays.staging))
    stages :
        {s : System} (ensured appends : Bool) (commit : Commit) (t : ℕ) (raw : Option (List ℕ))
        (m : Message)
        → next_delay_seq s.delays.staging + 1 < 2 ^ 64
        → Happens s
            (with_staging s (append_delay ensured appends commit t raw m s.delays.staging).0)
    moves :
        {s : System} (io : MoveIo) (key : ℕ) (raw : List ℕ)
        → key < delay_number (s.now + 1) 0
        → ((v : List ℕ) → lookup key s.delays.staging.entries ≡ some v → v ≡ raw)
        → Happens s (record s { delays = (move_one decode io key raw s.delays).delays })
    recalls :
        {s : System} (leads reads : Bool) (deletion : Commit) (topic : List ℕ) (due_ms seq : ℕ)
        → Happens s (record s {
          delays = (recall decode leads reads deletion s.now topic due_ms seq s.delays).0;
        })

  pub data Reaches : System → System → Type 0 where
    here : {s : System} → Reaches s s
    next : {s t u : System} → Happens s t → Reaches t u → Reaches s u

  apply_delete_elim :
      (P : Delays → Type 0) (x : Commit) (key : ℕ) (d : Delays)
      → P d
      → P (delete_entry key d)
      → P (apply_delete x key d).0
  unfolding apply_delete
  apply_delete_elim P rejected key d same gone = same
  apply_delete_elim P unsynced key d same gone = gone
  apply_delete_elim P committed key d same gone = gone

  answer_elim :
      (Q : Delays × Recalled → Type 0) (id : List ℕ) (x : Commit) (key : ℕ) (d : Delays)
      → Q (d, recall_fails store_error)
      → Q (delete_entry key d, recall_fails store_error)
      → Q (delete_entry key d, recalled id)
      → Q (answer id (apply_delete x key d))
  unfolding apply_delete answer
  answer_elim Q id rejected key d same gone answered = same
  answer_elim Q id unsynced key d same gone answered = gone
  answer_elim Q id committed key d same gone answered = answered

  move_message_elim :
      (P : Delays → Type 0) (io : MoveIo) (key : ℕ) (raw : List ℕ) (d : Delays)
      → P d
      → P (enqueue key raw d)
      → P (delete_entry key (enqueue key raw d))
      → P (move_message io key raw d).delays
  unfolding move_message
  move_message_elim P io key raw d same queued gone = cases io.appending
    where
      cases :
          (a : Appending)
          → P
              (elim a as (λ z. Moved) [
                | append_fails ↦ record { delays = d; moved = false; failed = true }
                | append_unsynced ↦ record {
                  delays = enqueue key raw d;
                  moved = false;
                  failed = true;
                }
                | appended ↦
                    let (d', failed) = apply_delete io.deletion key (enqueue key raw d) in
                    record { delays = d'; moved = true; failed = failed }
              ]).delays
      cases append_fails = same
      cases append_unsynced = queued
      cases appended = apply_delete_elim P io.deletion key (enqueue key raw d) queued gone

  -- What AppendDelay leaves.
  pub append_delay_elim :
      (P : Staging → Type 0) (ensured appends : Bool) (commit : Commit) (t : ℕ)
      (raw : Option (List ℕ)) (m : Message) (s : Staging)
      → P s
      → ((bytes : List ℕ) → P (stage m.deliver_at_ms bytes s))
      → P (append_delay ensured appends commit t raw m s).0
  unfolding append_delay
  append_delay_elim P ensured appends commit t raw m s same wrote =
      let Q : Staging × Staged → Type 0 = λ x. P x.0 in
      if-elim Q (m.deliver_at_ms == 0) _ _ (λ e. same)
        (λ e.
          if-elim Q (length m.body == 0 || ltb max_body_size (length m.body)) _ _ (λ e. same)
            (λ e.
              if-elim Q ensured _ _
                (λ e. if-elim Q (leb m.deliver_at_ms t) _ _ (λ e. same) (λ e. written raw commit))
                (λ e. same)))
    where
      written :
          (o : Option (List ℕ)) (x : Commit)
          → P
              (elim o as (λ z. Staging × Staged) [
                | none ↦ (s, refused)
                | some bytes ↦ elim x as (λ z. Staging × Staged) [
                  | rejected ↦ (s, refused)
                  | unsynced ↦ (stage m.deliver_at_ms bytes s, refused)
                  | committed ↦ (stage m.deliver_at_ms bytes s, staged (next_delay_seq s))
                ]
              ]).0
      written none x = same
      written (some bytes) rejected = same
      written (some bytes) unsynced = wrote bytes
      written (some bytes) committed = wrote bytes

  -- What moveOne leaves.
  pub move_one_elim :
      (P : Delays → Type 0) (io : MoveIo) (key : ℕ) (raw : List ℕ) (d : Delays)
      → P d
      → ((v : List ℕ)
          → lookup key d.staging.entries ≡ some v
          → decode raw ≡ none
          → P (delete_entry key d))
      → ((v : List ℕ)
          → lookup key d.staging.entries ≡ some v
          → P (enqueue key raw d) × P (delete_entry key (enqueue key raw d)))
      → P (move_one decode io key raw d).delays
  unfolding move_one
  move_one_elim P io key raw d same bad moved =
      if-elim (λ (r : Moved). P r.delays) (not io.reads) _ _ (λ e. same)
        (λ e. elim (Option-cases (lookup key d.staging.entries)) [
          | inl n ↦ simp n same
          | inr (v, ev) ↦ elim (Option-cases (decode raw)) [
            | inl n ↦ simp (ev, n) (apply_delete_elim P io.deletion key d same (bad v ev n))
            | inr (m, em) ↦
                simp (ev, em) (move_message_elim P io key raw d same (moved v ev).0 (moved v ev).1)
          ]
        ])

  -- What Recall leaves and answers.
  pub recall_elim :
      (Q : Delays × Recalled → Type 0) (leads reads : Bool) (deletion : Commit) (now : ℕ)
      (topic : List ℕ) (due_ms seq : ℕ) (d : Delays)
      → ((e : RecallError) → Q (d, recall_fails e))
      → ((v : List ℕ)
          → lookup (delay_number due_ms seq) d.staging.entries ≡ some v
          → now < due_ms
          → Q (delete_entry (delay_number due_ms seq) d, recall_fails store_error)
            × ((id : List ℕ) → Q (delete_entry (delay_number due_ms seq) d, recalled id)))
      → Q (recall decode leads reads deletion now topic due_ms seq d)
  unfolding recall
  recall_elim Q leads reads deletion now topic due_ms seq d same gone =
      let key = delay_number due_ms seq in
      if-elim Q (not leads) _ _ (λ e. same not_leader)
        (λ e.
          if-elim Q (leb due_ms now) _ _ (λ e. same too_late)
            (λ later.
              if-elim Q (not reads) _ _ (λ e. same store_error)
                (λ e. elim (Option-cases (lookup key d.staging.entries)) [
                  | inl n ↦ simp n (same not_found)
                  | inr (v, ev) ↦ elim (Option-cases (decode v)) [
                    | inl n ↦ simp (ev, n) (same store_error)
                    | inr (m, em) ↦
                        let both = gone v ev (ground arith) in
                        simp (ev, em)
                          (if-elim Q (bytes_eq m.topic topic) _ _
                            (λ e.
                              answer_elim Q m.id deletion key d (same store_error) both.0
                                (both.1 m.id))
                            (λ e. same topic_mismatch))
                  ]
                ])))
