-- ===== src/Delay/Staging.antt =====
-- The staging area of delayed messages, and AppendDelay of internal/core/produce/produce.go.
use sq.Common.{
  ℕ, ◌+◌, ◌*◌, ◌/◌, ◌^◌, Bool, true, false, List, Option, none, some, ltb, leb, ◌==◌, ◌||◌,
  if◌then◌else◌, length,
}
use sq.Message.{Message}
use sq.Deliver.Table.{Table, insert}
use sq.Deliver.State.{Commit, rejected, unsynced, committed}

-- The entries of delay/, each under its due time and its sequence number. The keys sort by the due
-- time first (DelayKey), as these numbers do. The counter of delayalloc is absent until the first
-- entry is written; delay_next is the producer's copy of it, delay_loaded whether it is in use.
pub record Staging : Type 0 where
  pub entries : Table (List ℕ)
  pub delay_alloc : Option ℕ
  pub delay_next : ℕ
  pub delay_loaded : Bool

unfoldable pub delay_number : ℕ → ℕ → ℕ
delay_number due_ms seq = due_ms * 2 ^ 64 + seq

unfoldable pub due_of : ℕ → ℕ
due_of key = key / 2 ^ 64

abbrev pub max_body_size : ℕ
max_body_size = 4194304

-- What AppendDelay returns: an error; the message in its queue already; or its sequence number.
pub data Staged : Type 0 where
  refused : Staged
  direct : Staged
  staged : ℕ → Staged

-- nextDelaySeqLocked; the read of the counter does not fail.
unfoldable pub next_delay_seq : Staging → ℕ
next_delay_seq s =
    if s.delay_loaded then s.delay_next else elim s.delay_alloc [ none ↦ 0 | some n ↦ n ]

-- The batch of an entry and the counter, written together.
unfoldable pub stage : ℕ → List ℕ → Staging → Staging
stage due_ms raw s =
    let seq = next_delay_seq s in
    record {
      entries = insert (delay_number due_ms seq) raw s.entries;
      delay_alloc = some (seq + 1);
      delay_next = seq + 1;
      delay_loaded = true;
    }

-- AppendDelay: `ensured` is what EnsureTopic answers, `appends` what Append answers for a message
-- that is due already, `raw` what EncodeMessage makes of the message with its times filled in.
-- The counter moves on once the batch is ordered, and the call waits for it to be durable.
unfoldable pub append_delay :
    Bool → Bool → Commit → ℕ → Option (List ℕ) → Message → Staging → Staging × Staged
append_delay ensured appends commit now_ms raw m s =
    if m.deliver_at_ms == 0
    then (s, refused)
    else if length m.body == 0 || ltb max_body_size (length m.body)
    then (s, refused)
    else if ensured
    then if leb m.deliver_at_ms now_ms then (s, if appends then direct else refused) else elim raw [
      | none ↦ (s, refused)
      | some bytes ↦ elim commit [
        | rejected ↦ (s, refused)
        | unsynced ↦ (stage m.deliver_at_ms bytes s, refused)
        | committed ↦ (stage m.deliver_at_ms bytes s, staged (next_delay_seq s))
      ]
    ]
    else (s, refused)

-- InvalidateCounters.
unfoldable pub invalidate_counters : Staging → Staging
invalidate_counters s = record s { delay_loaded = false }
