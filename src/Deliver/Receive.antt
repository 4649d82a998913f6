-- ===== src/Deliver/Receive.antt =====
-- Deliverer.receiveOnce and receiveOnceLocked of internal/core/deliver/deliver.go. Sets and deletes
-- go to a batch, which is applied as a whole at the end; a dead letter is written at once. The
-- queue's lock makes a call atomic for the calls on the same queue.
use sq.Common.{
  ℕ, zero, suc, ◌+◌, ◌-◌, ◌%◌, ◌^◌, Bool, true, false, not, ◌&&◌, ◌||◌, List, [], ◌∷◌, ◌++◌, none,
  some, length, ltb, leb, bytes_eq, if◌then◌else◌,
}
use sq.Message.{Message}
use sq.Filter.{Filter, Result, result_true, skip_reason_of}
use sq.Deliver.Table.{Table, lookup, insert, delete}
use sq.Deliver.Lease.{Inflight, Lease, enabled, renewable, renewed, milliseconds, retry_backoff}
use sq.Deliver.State.{
  Skips, count_skip, Queue, cursor_of, Commit, rejected, unsynced, committed, Context, exhausted,
  move_to_dlq,
}

-- The other arguments of receiveOnce; `invisible` is in nanoseconds.
pub record Request : Type 0 where
  pub max_msgs : ℕ
  pub invisible : ℕ
  pub max_attempts : ℕ
  pub filter : Filter
  pub lease : Lease

pub record Redeliver : Type 0 where
  pub offset : ℕ
  pub attempts : ℕ
  pub ordered : Bool

pub data Write : Type 0 where
  set_inflight : ℕ → Inflight → Write
  delete_inflight : ℕ → Write

unfoldable pub apply_write : Write → Table Inflight → Table Inflight
apply_write (set_inflight k st) t = insert k st t
apply_write (delete_inflight k) t = delete k t

-- The batch holds its writes with the newest first.
unfoldable pub apply_writes : List Write → Table Inflight → Table Inflight
apply_writes [] t = t
apply_writes (w ∷ ws) t = apply_write w (apply_writes ws t)

-- The result of the scan of the inflight records.
pub record Scan : Type 0 where
  pub ordered_busy : Bool
  pub renews : List (ℕ × Inflight)
  pub reds : List Redeliver

-- `room` is maxMsgs - len(reds). Every record is read, since each may hold the order lock.
unfoldable pub scan_inflight : Request → ℕ → ℕ → Table Inflight → Scan
scan_inflight r now room [] = record { ordered_busy = false; renews = []; reds = [] }
scan_inflight r now room ((offset, st) ∷ t) =
    let expired = leb st.expire_at_ms now in
    let renew = renewable r.lease st now in
    let redeliver = ltb 0 room in
    let rest = scan_inflight r now (if expired && not renew then room - 1 else room) t in
    let busy = st.ordered || rest.ordered_busy in
    let red : Redeliver = record {
      offset = offset;
      attempts = st.attempts;
      ordered = st.ordered;
    } in
    if not expired
    then record rest { ordered_busy = busy }
    else if renew
    then record rest { ordered_busy = busy; renews = (offset, st) ∷ rest.renews }
    else if redeliver
    then record rest { ordered_busy = busy; reds = red ∷ rest.reds }
    else record rest { ordered_busy = busy }

-- The variables of the call: the committed state, the batch, `staged`, `out` and `orderedBusy`.
pub record Work : Type 0 where
  pub queue : Queue
  pub writes : List Write
  pub staged : Bool
  pub out : List Message
  pub ordered_busy : Bool

-- The error returns leave the committed state; the batch is closed unapplied.
pub data Step (A : Type 0) : Type 0 where
  failed : Queue → Step A
  goes_on : A → Step A

unfoldable pub renew_all : Request → ℕ → List (ℕ × Inflight) → Work → Work
renew_all r now [] w = w
renew_all r now ((offset, st) ∷ rest) w = renew_all r now rest (record w {
  writes = set_inflight offset (renewed now r.invisible st) ∷ w.writes;
  staged = true;
})

-- The record of a new delivery: owner and budget are written only for a call with a lease.
unfoldable pub new_inflight : Request → ℕ → ℕ → ℕ → Bool → Inflight
new_inflight r now expire attempts ordered = record {
  expire_at_ms = expire;
  attempts = attempts;
  ordered = ordered;
  owner = if enabled r.lease then r.lease.owner else [];
  renew_until_ms = if enabled r.lease then now + milliseconds r.lease.max_renew else 0;
}

-- When a redelivered message may be delivered again: later by the back-off, unless it is ordered.
unfoldable pub redelivery_expiry : Request → ℕ → ℕ → Bool → ℕ
redelivery_expiry r now attempts ordered =
    let backoff = retry_backoff attempts in
    if not ordered && ltb r.invisible backoff
    then now + milliseconds backoff
    else now + milliseconds r.invisible

-- `attempts + 1` fits an int32, since `attempts` is below maxAttempts.
unfoldable pub redelivered : Context → Request → Redeliver → Message → Work → Work
redelivered c r red m w =
    let attempts = red.attempts + 1 in
    let st =
      new_inflight r c.now_ms (redelivery_expiry r c.now_ms attempts red.ordered) attempts
        red.ordered in
    record w {
      writes = set_inflight red.offset st ∷ w.writes;
      staged = true;
      out = w.out ++ (record m { delivery_attempt = attempts } ∷ []);
    }

unfoldable pub unlock : Bool → Bool → Bool
unlock ordered busy = if ordered then false else busy

-- The message is gone: its record is an orphan.
unfoldable pub orphaned : Redeliver → Work → Work
orphaned red w = record w {
  writes = delete_inflight red.offset ∷ w.writes;
  staged = true;
  ordered_busy = unlock red.ordered w.ordered_busy;
}

unfoldable pub dead_lettered : Redeliver → Work → Queue × Bool → Step Work
dead_lettered red w (q, false) = failed q
dead_lettered red w (q, true) =
    goes_on (record w { queue = q; ordered_busy = unlock red.ordered w.ordered_busy })

unfoldable pub redeliver_one : Context → Request → Redeliver → Work → Step Work
redeliver_one c r red w = elim (lookup red.offset w.queue.msgs) [
  | none ↦ goes_on (orphaned red w)
  | some raw ↦ elim (c.decode raw) [
    | none ↦ failed w.queue
    | some m ↦
        if leb r.max_attempts red.attempts
        then dead_lettered red w (move_to_dlq c w.queue red.offset m red.attempts exhausted)
        else goes_on (redelivered c r red m w)
  ]
]

unfoldable pub redeliver_all : Context → Request → List Redeliver → Work → Step Work
redeliver_all c r [] w = goes_on w
redeliver_all c r (red ∷ reds) w = elim (redeliver_one c r red w) [
  | failed q ↦ failed q
  | goes_on w' ↦ redeliver_all c r reds w'
]

-- The second phase also moves `newCursor` and counts what it skips.
pub record Fetch : Type 0 where
  pub work : Work
  pub new_cursor : ℕ
  pub skips : Skips

-- `m.Offset + 1` on uint64.
abbrev pub next_offset : ℕ → ℕ
next_offset o = (o + 1) % 2 ^ 64

abbrev pub is_ordered : Message → Bool
is_ordered m = not (bytes_eq m.message_group [])

unfoldable pub skipped_one : Request → Message → Fetch → Fetch
skipped_one r m f = record f {
  new_cursor = next_offset m.offset;
  skips = count_skip (skip_reason_of r.filter (r.filter.matches m)) f.skips;
}

unfoldable pub delivered_one : Context → Request → Message → Fetch → Fetch
delivered_one c r m f =
    let st = new_inflight r c.now_ms (c.now_ms + milliseconds r.invisible) 1 (is_ordered m) in
    record f {
      new_cursor = next_offset m.offset;
      work = record (f.work) {
        writes = set_inflight m.offset st ∷ f.work.writes;
        out = f.work.out ++ (record m { delivery_attempt = 1 } ∷ []);
        ordered_busy = is_ordered m || f.work.ordered_busy;
      };
    }

-- What the callback says of one record: an error, the end of the scan, or go on.
pub data Visit : Type 0 where
  broken : Visit
  ends : Fetch → Visit
  continues : Fetch → Visit

abbrev pub is_true : Result → Bool
is_true result_true = true
is_true r = false

unfoldable pub visit : Context → Request → List ℕ → Fetch → Visit
visit c r raw f = elim (c.decode raw) [
  | none ↦ broken
  | some m ↦
      if not (is_true (r.filter.matches m))
      then continues (skipped_one r m f)
      else if is_ordered m && f.work.ordered_busy
      then ends f
      else if ltb (length (delivered_one c r m f).work.out) r.max_msgs
      then continues (delivered_one c r m f)
      else ends (delivered_one c r m f)
]

-- The scan from the cursor on, over at most `budget` records.
unfoldable pub fetch_all : Context → Request → ℕ → Table (List ℕ) → Fetch → Step Fetch
fetch_all c r zero t f = goes_on f
fetch_all c r (suc budget) [] f = goes_on f
fetch_all c r (suc budget) ((key, raw) ∷ t) f = elim (visit c r raw f) [
  | broken ↦ failed f.work.queue
  | ends f' ↦ goes_on f'
  | continues f' ↦ fetch_all c r budget t f'
]

-- The records at or after an offset.
unfoldable pub from_offset : ℕ → Table (List ℕ) → Table (List ℕ)
from_offset n [] = []
from_offset n ((key, raw) ∷ t) =
    let rest = from_offset n t in if ltb key n then rest else (key, raw) ∷ t

abbrev pub scan_budget : ℕ
scan_budget = 1024

-- The result of receiveOnce: the state, and the messages or an error.
pub data Received : Type 0 where
  refused : Queue → Received
  received : Queue → List Message → Received

-- The state once the batch is applied.
unfoldable pub applied : Fetch → Queue
applied f =
    let q = f.work.queue in
    record q {
      inflight = apply_writes f.work.writes q.inflight;
      cursor = if ltb (cursor_of q) f.new_cursor then some f.new_cursor else q.cursor;
    }

unfoldable pub commit_batch : Commit → Fetch → Received
commit_batch rejected f = refused f.work.queue
commit_batch unsynced f = refused (applied f)
commit_batch committed f = received (applied f) f.work.out

-- Without a staged write the batch is closed and the call returns no message.
unfoldable pub finish : Context → Fetch → Received
finish c f =
    let q = f.work.queue in
    if f.work.staged || ltb (cursor_of q) f.new_cursor
    then commit_batch c.commit f
    else received q []

abbrev pub add_skips : Skips → Skips → Skips
add_skips a b = record {
  tag_misses = a.tag_misses + b.tag_misses;
  sql_falses = a.sql_falses + b.sql_falses;
  sql_unknowns = a.sql_unknowns + b.sql_unknowns;
}

-- The counts of the scan are merged into the shared ones.
unfoldable pub merge_skips : Fetch → Fetch
merge_skips f =
    let w = f.work in
    let q = w.queue in
    record f { work = record w { queue = record q { skipped = add_skips q.skipped f.skips } } }

unfoldable pub fetch_start : Work → Fetch
fetch_start w = record {
  work = w;
  new_cursor = cursor_of w.queue;
  skips = record { tag_misses = 0; sql_falses = 0; sql_unknowns = 0 };
}

unfoldable pub fetch_phase : Context → Request → Work → Step Fetch
fetch_phase c r w =
    if ltb (length w.out) r.max_msgs
    then elim (fetch_all c r scan_budget (from_offset (cursor_of w.queue) w.queue.msgs)
        (fetch_start w)) [ failed q ↦ failed q | goes_on f ↦ goes_on (merge_skips f) ]
    else goes_on (fetch_start w)

unfoldable pub start : Request → ℕ → Queue → Work
start r now q =
    let scan = scan_inflight r now r.max_msgs q.inflight in
    renew_all r now scan.renews (record {
      queue = q;
      writes = [];
      staged = false;
      out = [];
      ordered_busy = scan.ordered_busy;
    })

unfoldable pub receive_once : Context → Request → Queue → Received
receive_once c r q =
    elim (redeliver_all c r (scan_inflight r c.now_ms r.max_msgs q.inflight).reds
      (start r c.now_ms q)) [
        | failed q' ↦ refused q'
        | goes_on w ↦ elim (fetch_phase c r w) [ failed q' ↦ refused q' | goes_on f ↦ finish c f ]
      ]
