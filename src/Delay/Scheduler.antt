-- ===== src/Delay/Scheduler.antt =====
-- The scheduler of internal/core/delay/delay.go: Pass with moveOne, and Recall. moveOne and Recall
-- each hold moveMu from their first read to their last write; the scan of Pass does not.
use sq.Common.{
  ℕ, ◌+◌, Bool, true, false, not, List, [], ◌∷◌, Option, none, some, ltb, leb, if◌then◌else◌,
  bytes_eq, take,
}
use sq.Message.{Message}
use sq.Deliver.Table.{Table, delete, lookup}
use sq.Deliver.State.{Commit, rejected, unsynced, committed}
use sq.Delay.Staging.{Staging, delay_number}

abbrev pub max_move_per_pass : ℕ
max_move_per_pass = 512

-- What the scheduler works on: the staging area, and the messages that it gave to Append or
-- ForwardAppend and that are in their queues, each with the key of its entry.
pub record Delays : Type 0 where
  pub staging : Staging
  pub queued : Table (List ℕ)

-- What becomes of the append of a message: it is not written; it is written but reported as an
-- error; it is written.
pub data Appending : Type 0 where
  append_fails append_unsynced appended : Appending

-- The outcomes of one moveOne: the read of the entry, the append, the delete of the entry.
pub record MoveIo : Type 0 where
  pub reads : Bool
  pub appending : Appending
  pub deletion : Commit

-- What moveOne returns: whether a message was moved, and whether there was an error.
pub record Moved : Type 0 where
  pub delays : Delays
  pub moved : Bool
  pub failed : Bool

unfoldable pub delete_entry : ℕ → Delays → Delays
delete_entry key d = record d {
  staging = record (d.staging) { entries = delete key d.staging.entries };
}

-- The batch that deletes an entry: the state, and whether Apply returns an error.
unfoldable pub apply_delete : Commit → ℕ → Delays → Delays × Bool
apply_delete rejected key d = (d, true)
apply_delete unsynced key d = (delete_entry key d, true)
apply_delete committed key d = (delete_entry key d, false)

unfoldable pub enqueue : ℕ → List ℕ → Delays → Delays
enqueue key raw d = record d { queued = (key, raw) ∷ d.queued }

-- The two phases for a message that can be decoded.
unfoldable pub move_message : MoveIo → ℕ → List ℕ → Delays → Moved
move_message io key raw d = elim io.appending [
  | append_fails ↦ record { delays = d; moved = false; failed = true }
  | append_unsynced ↦ record { delays = enqueue key raw d; moved = false; failed = true }
  | appended ↦
      let (d', failed) = apply_delete io.deletion key (enqueue key raw d) in
      record { delays = d'; moved = true; failed = failed }
]

pub data RecallError : Type 0 where
  not_leader too_late not_found topic_mismatch store_error : RecallError

pub data Recalled : Type 0 where
  recall_fails : RecallError → Recalled
  recalled : List ℕ → Recalled

unfoldable pub answer : List ℕ → Delays × Bool → Delays × Recalled
answer id (d, true) = (d, recall_fails store_error)
answer id (d, false) = (d, recalled id)

-- The scan of Pass: the first entries that are due, up to DelayScanUpperBound(now).
unfoldable pub before : ℕ → Table (List ℕ) → Table (List ℕ)
before bound [] = []
before bound ((key, raw) ∷ t) =
    let rest = before bound t in if ltb key bound then (key, raw) ∷ rest else []

unfoldable pub scan_due : ℕ → Delays → Table (List ℕ)
scan_due now_ms d = take max_move_per_pass (before (delay_number (now_ms + 1) 0) d.staging.entries)

module _ (decode : List ℕ → Option Message) where
  unfoldable pub move_one : MoveIo → ℕ → List ℕ → Delays → Moved
  move_one io key raw d =
      if not io.reads
      then record { delays = d; moved = false; failed = true }
      else elim (lookup key d.staging.entries) [
        | none ↦ record { delays = d; moved = false; failed = false }
        | some v ↦ elim (decode raw) [
          | none ↦
              let (d', failed) = apply_delete io.deletion key d in
              record { delays = d'; moved = false; failed = failed }
          | some m ↦ move_message io key raw d
        ]
      ]

  -- The loop of Pass over what the scan copied. An error ends it, after the message that was moved
  -- all the same is counted.
  unfoldable pub move_all : (ℕ → MoveIo) → Table (List ℕ) → ℕ → Delays → Delays × ℕ × Bool
  move_all io [] count d = (d, count, false)
  move_all io ((key, raw) ∷ dues) count d =
      let r = move_one (io key) key raw d in
      let n = if r.moved then count + 1 else count in
      let rest = move_all io dues n r.delays in if r.failed then (r.delays, n, true) else rest

  -- Pass on a node that leads the meta group, and on one that does not; `scans` is whether the scan
  -- succeeds.
  unfoldable pub pass : Bool → Bool → (ℕ → MoveIo) → ℕ → Delays → Delays × ℕ × Bool
  pass leads scans io now_ms d =
      if leads
      then if scans then move_all io (scan_due now_ms d) 0 d else (d, 0, true)
      else (d, 0, false)

  -- Recall: `reads` is whether the read of the entry succeeds.
  unfoldable pub recall : Bool → Bool → Commit → ℕ → List ℕ → ℕ → ℕ → Delays → Delays × Recalled
  recall leads reads deletion now_ms topic due_ms seq d =
      let key = delay_number due_ms seq in
      if not leads
      then (d, recall_fails not_leader)
      else if leb due_ms now_ms
      then (d, recall_fails too_late)
      else if not reads
      then (d, recall_fails store_error)
      else elim (lookup key d.staging.entries) [
        | none ↦ (d, recall_fails not_found)
        | some v ↦ elim (decode v) [
          | none ↦ (d, recall_fails store_error)
          | some m ↦
              if bytes_eq m.topic topic
              then answer m.id (apply_delete deletion key d)
              else (d, recall_fails topic_mismatch)
        ]
      ]
