-- ===== src/Txn/Manager.antt =====
-- The transaction manager of internal/core/txn/txn.go: Stage, End and Pass with checkOne and
-- dropLocked. End, checkOne and dropLocked each hold the lock of their transaction from the first
-- read to the last write; the scan of Pass holds none.
use sq.Common.{
  ℕ, ◌+◌, ◌/◌, ◌%◌, ◌^◌, Bool, true, false, not, ◌||◌, List, [], ◌∷◌, Option, none, some, ltb, leb,
  ◌==◌, if◌then◌else◌, length, ◌≡◌,
}
use sq.Message.{Message}
use sq.Deliver.State.{Commit, rejected, unsynced, committed}
use sq.Delay.Scheduler.{Appending, append_fails, append_unsynced, appended}
use sq.Produce.Append.{max_body_size}
use sq.Store.Keys.{half_key, half_idx_key, half_prefix, half_scan_upper_bound, parse_half_key}
use sq.Txn.Records.{Records, get, set, delete, scan}

pub record HalfRef : Type 0 where
  pub next_check_ms : ℕ
  pub checks : ℕ

-- encoding/json on a HalfRef: what it writes it reads back, and other bytes may be refused.
pub record Json : Type 0 where
  pub marshal : HalfRef → List ℕ
  pub unmarshal : List ℕ → Option HalfRef
  pub unmarshal-marshal : (r : HalfRef) → unmarshal (marshal r) ≡ some r

-- The records of the store; the messages that commits gave to Append or ForwardAppend and that are
-- in their queues, each under its transaction; the two counters.
pub record Half : Type 0 where
  pub records : Records
  pub queued : Records
  pub checked : ℕ
  pub dropped : ℕ

-- A batch: the state, and whether Apply or ApplyOrForward returns an error.
unfoldable pub apply : Commit → (Records → Records) → Half → Half × Bool
apply rejected batch h = (h, true)
apply unsynced batch h = (record h { records = batch h.records }, true)
apply committed batch h = (record h { records = batch h.records }, false)

-- time.Now().Add(checkInterval).UnixMilli().
unfoldable pub next_check : ℕ → ℕ → ℕ
next_check now_ns interval_ns = (now_ns + interval_ns) / 1_000_000

-- The batch that deletes both records of a transaction.
unfoldable pub drop_both : List ℕ → List ℕ → Records → Records
drop_both key tx t = delete (half_idx_key tx) (delete key t)

unfoldable pub stamped : ℕ → List ℕ → Message → Message
stamped now_ms new_id m = record m {
  id = if length m.id == 0 then new_id else m.id;
  born_at_ms = if m.born_at_ms == 0 then now_ms else m.born_at_ms;
  store_at_ms = now_ms;
}

pub data EndError : Type 0 where
  not_leader read_error bad_ref bad_message append_error apply_error : EndError

-- What End returns: an error, or whether the half message was found.
pub data Ended : Type 0 where
  end_error : EndError → Ended
  answered : Bool → Ended

unfoldable pub answer : Bool → Half × Bool → Half × Ended
answer found (h, true) = (h, end_error apply_error)
answer found (h, false) = (h, answered found)

-- The outcomes of one End: the two reads, the leadership of the meta group, the append of the
-- message, here or at the leader of its queue, and the delete.
pub record EndIo : Type 0 where
  pub reads_ref : Bool
  pub leads_meta : Bool
  pub reads_half : Bool
  pub appending : Appending
  pub deletion : Commit

unfoldable pub enqueue : List ℕ → List ℕ → Half → Half
enqueue tx raw h = record h { queued = (tx, raw) ∷ h.queued }

-- The two phases of a commit: the append, then the delete of both records.
unfoldable pub commit_half : EndIo → List ℕ → List ℕ → List ℕ → Half → Half × Ended
commit_half io key tx raw h = elim io.appending [
  | append_fails ↦ (h, end_error append_error)
  | append_unsynced ↦ (enqueue tx raw h, end_error append_error)
  | appended ↦ answer true (apply io.deletion (drop_both key tx) (enqueue tx raw h))
]

-- The outcomes of one checkOne: the two reads, the batch, the time of the next check.
pub record CheckIo : Type 0 where
  pub reads_ref : Bool
  pub reads_half : Bool
  pub write : Commit
  pub next_ms : ℕ

-- What checkOne returns: an error, or whether to send the check.
unfoldable pub checked_as : Bool → Half × Bool → Half × Option Bool
checked_as send (h, true) = (h, none)
checked_as send (h, false) = (h, some send)

unfoldable pub count_drop : Half × Bool → Half × Option Bool
count_drop (h, true) = (h, none)
count_drop (h, false) = (record h { dropped = (h.dropped + 1) % 2 ^ 64 }, some false)

unfoldable pub count_check : Half × Bool → Half × Option Bool
count_check (h, true) = (h, none)
count_check (h, false) = (record h { checked = (h.checked + 1) % 2 ^ 64 }, some true)

unfoldable pub drop_locked : Commit → List ℕ → List ℕ → Half → Half × Bool
drop_locked write tx key h = apply write (drop_both key tx) h

-- What the scan of Pass collects: a due entry (its transaction, its value and its key) or a key
-- that does not parse.
pub record DueEntry : Type 0 where
  pub tx_id : List ℕ
  pub raw : List ℕ
  pub half_at : List ℕ

abbrev pub max_check_per_pass : ℕ
max_check_per_pass = 256

unfoldable pub due_entries : Records → List DueEntry
due_entries [] = []
due_entries ((k, v) ∷ t) =
    let rest = due_entries t in
    elim (parse_half_key k) [
      | none ↦ rest
      | some (ms, tx) ↦ record { tx_id = tx; raw = v; half_at = k } ∷ rest
    ]

unfoldable pub bad_keys : Records → List (List ℕ)
bad_keys [] = []
bad_keys ((k, v) ∷ t) =
    let rest = bad_keys t in elim (parse_half_key k) [ none ↦ k ∷ rest | some p ↦ rest ]

unfoldable pub delete_all : List (List ℕ) → Records → Records
delete_all [] t = t
delete_all (k ∷ ks) t = delete_all ks (delete k t)

unfoldable pub clean : Commit → List (List ℕ) → Half → Half × Bool
clean write [] h = (h, false)
clean write (k ∷ ks) h = apply write (delete_all (k ∷ ks)) h

-- What Pass returns: the entries that it handled, whether there was an error, and the transactions
-- that it asked a producer about, in order.
pub record Passed : Type 0 where
  pub half : Half
  pub handled : ℕ
  pub failed : Bool
  pub asked : List (List ℕ)

unfoldable pub stopped : Half → ℕ → Passed
stopped h handled = record { half = h; handled = handled; failed = true; asked = [] }

unfoldable pub ask : List ℕ → Option Bool → Passed → Passed
ask tx (some true) p = record p { asked = tx ∷ p.asked }
ask tx (some false) p = p
ask tx none p = p

module _ (json : Json) where
  unfoldable pub put_half : ℕ → ℕ → List ℕ → List ℕ → Records → Records
  put_half next checks tx raw t =
      set (half_idx_key tx) (json.marshal (record { next_check_ms = next; checks = checks }))
        (set (half_key next tx) raw t)

  -- Stage: `ensured` is what EnsureTopic answers, `encode` is EncodeMessage, `tx` the new id.
  unfoldable pub stage :
      Bool
      → (Message → Option (List ℕ))
      → Commit
      → ℕ
      → ℕ
      → List ℕ
      → List ℕ
      → Message
      → Half
      → Half × Option (List ℕ)
  stage ensured encode commit now_ms next new_id tx m h =
      if length m.body == 0 || ltb max_body_size (length m.body)
      then (h, none)
      else if not ensured
      then (h, none)
      else elim (encode (stamped now_ms new_id m)) [
        | none ↦ (h, none)
        | some raw ↦
            let (h', failed) = apply commit (put_half next 0 tx raw) h in
            (h', if failed then none else some tx)
      ]

  -- The batch that moves an entry to its next check.
  unfoldable pub reschedule : List ℕ → ℕ → ℕ → List ℕ → List ℕ → Records → Records
  reschedule old_key next checks tx raw t = put_half next checks tx raw (delete old_key t)

  -- The check of a transaction whose reference can be read.
  unfoldable pub check_ref : ℕ → CheckIo → List ℕ → HalfRef → Half → Half × Option Bool
  check_ref max_checks io tx ref h =
      let old_key = half_key ref.next_check_ms tx in
      if leb max_checks ref.checks
      then count_drop (apply io.write (drop_both old_key tx) h)
      else if not io.reads_half
      then (h, none)
      else elim (get old_key h.records) [
        | none ↦ checked_as false (apply io.write (delete (half_idx_key tx)) h)
        | some raw ↦
            count_check (apply io.write (reschedule old_key io.next_ms (ref.checks + 1) tx raw) h)
      ]

  unfoldable pub check_one : ℕ → CheckIo → List ℕ → List ℕ → Half → Half × Option Bool
  check_one max_checks io key tx h =
      if not io.reads_ref then (h, none) else elim (get (half_idx_key tx) h.records) [
        | none ↦ (h, some false)
        | some bytes ↦ elim (json.unmarshal bytes) [
          | none ↦ checked_as false (apply io.write (drop_both key tx) h)
          | some ref ↦ check_ref max_checks io tx ref h
        ]
      ]

  module _ (decode : List ℕ → Option Message) where
    -- End with a half message that was found.
    unfoldable pub decide_half : EndIo → List ℕ → List ℕ → List ℕ → Bool → Half → Half × Ended
    decide_half io key tx raw commit h =
        if not commit
        then answer true (apply io.deletion (drop_both key tx) h)
        else elim (decode raw) [
          | none ↦ (h, end_error bad_message)
          | some m ↦ commit_half io key tx raw h
        ]

    unfoldable pub end_ref : EndIo → List ℕ → HalfRef → Bool → Half → Half × Ended
    end_ref io tx ref commit h =
        let key = half_key ref.next_check_ms tx in
        if not io.reads_half then (h, end_error read_error) else elim (get key h.records) [
          | none ↦ answer false (apply io.deletion (delete (half_idx_key tx)) h)
          | some raw ↦ decide_half io key tx raw commit h
        ]

    unfoldable pub end_txn : EndIo → List ℕ → Bool → Half → Half × Ended
    end_txn io tx commit h =
        if not io.reads_ref
        then (h, end_error read_error)
        else elim (get (half_idx_key tx) h.records) [
          | none ↦ (h, if io.leads_meta then answered false else end_error not_leader)
          | some bytes ↦ elim (json.unmarshal bytes) [
            | none ↦ (h, end_error bad_ref)
            | some ref ↦ end_ref io tx ref commit h
          ]
        ]

    -- One entry of the loop of Pass: the state, and what checkOne returns, or what dropLocked does
    -- for an entry that cannot be decoded.
    unfoldable pub handle : ℕ → CheckIo → DueEntry → Half → Half × Option Bool
    handle max_checks io d h = elim (decode d.raw) [
      | none ↦ checked_as false (drop_locked io.write d.tx_id d.half_at h)
      | some m ↦ check_one max_checks io d.half_at d.tx_id h
    ]

    unfoldable pub handle_all : ℕ → (List ℕ → CheckIo) → List DueEntry → ℕ → Half → Passed
    handle_all max_checks io [] handled h = record {
      half = h;
      handled = handled;
      failed = false;
      asked = [];
    }
    handle_all max_checks io (d ∷ ds) handled h =
        let (h', sends) = handle max_checks (io d.tx_id) d h in
        let rest = handle_all max_checks io ds (handled + 1) h' in
        elim sends [ none ↦ stopped h' handled | some send ↦ ask d.tx_id (some send) rest ]

    -- Pass: whether the node leads the meta group, whether the scan succeeds, and the fate of the
    -- batch that deletes the keys that do not parse.
    unfoldable pub pass : Bool → Bool → Commit → ℕ → (List ℕ → CheckIo) → ℕ → Half → Passed
    pass leads scans cleaning max_checks io now_ms h =
        let found = scan half_prefix (half_scan_upper_bound now_ms) max_check_per_pass h.records in
        let (h', failed) = clean cleaning (bad_keys found) h in
        if not leads
        then record { half = h; handled = 0; failed = false; asked = [] }
        else if not scans
        then stopped h 0
        else if failed
        then stopped h' 0
        else handle_all max_checks io (due_entries found) (length (bad_keys found)) h'
