-- ===== src/Produce/Append.antt =====
-- Append, AppendBatch and InvalidateCounters of internal/core/produce/produce.go, for one topic.
use sq.Common.{
  ℕ, zero, suc, ◌+◌, ◌%◌, ◌^◌, Bool, true, false, not, ◌&&◌, ◌||◌, List, [], ◌∷◌, ◌++◌, Option,
  none, some, ltb, ◌==◌, if◌then◌else◌, ◌>>=◌, length, bytes_eq,
}
use sq.Message.{Message}
use sq.Deliver.Table.{Table, insert}

abbrev pub max_body_size : ℕ
max_body_size = 4194304

-- One queue: its messages under their offsets, the counter on disk, the entries of the key index
-- (a key, a time and an offset each), and the queueState in memory.
pub record Shelf : Type 0 where
  pub msgs : Table (List ℕ)
  pub alloc : Option ℕ
  pub key_index : List (List ℕ × ℕ × ℕ)
  pub next : ℕ
  pub loaded : Bool

-- The queues of the topic by their numbers, and p.rr[topic].
pub record Producing : Type 0 where
  pub shelves : ℕ → Shelf
  pub rr : ℕ

-- The fate of a batch: ApplyAsync refuses it; it is ordered and Wait fails, either as it is never
-- applied (the leadership moved on) or as it is applied and not made durable; or all works.
pub data BatchFate : Type 0 where
  refused_batch dropped_batch unsynced_batch committed_batch : BatchFate

-- What a call finds: the number of queues that EnsureTopic answers, or its error; the queues whose
-- group this node leads; the FNV hash; the clock; NewMessageID; EncodeMessage; the fate of the batch.
pub record Setting : Type 0 where
  pub ensured : Option ℕ
  pub leads : ℕ → Bool
  pub fnv32a : List ℕ → ℕ
  pub now_ms : ℕ
  pub new_id : ℕ → List ℕ
  pub encode : Message → Option (List ℕ)
  pub fate : BatchFate

-- nextOffsetLocked; the read of the counter does not fail.
unfoldable pub next_offset : Shelf → ℕ
next_offset s = if s.loaded then s.next else elim s.alloc [ none ↦ 0 | some n ↦ n ]

unfoldable pub index_keys : ℕ → ℕ → List (List ℕ) → List (List ℕ × ℕ × ℕ)
index_keys store_at_ms offset [] = []
index_keys store_at_ms offset ([] ∷ keys) = index_keys store_at_ms offset keys
index_keys store_at_ms offset ((b ∷ bs) ∷ keys) =
    (b ∷ bs, store_at_ms, offset) ∷ index_keys store_at_ms offset keys

-- One message of a batch.
unfoldable pub put_message : Message → List ℕ → Shelf → Shelf
put_message m raw s = record s {
  msgs = insert m.offset raw s.msgs;
  key_index = index_keys m.store_at_ms m.offset m.keys ++ s.key_index;
}

-- The loop over the messages of a batch, each under the next offset; `none` is an error of the
-- encoder, which drops the batch.
unfoldable pub put_all : (Message → Option (List ℕ)) → ℕ → ℕ → List Message → Shelf → Option Shelf
put_all encode queue_id offset [] s = some s
put_all encode queue_id offset (m ∷ ms) s =
    let placed = record m { queue_id = queue_id; offset = offset } in
    encode placed >>= λ raw. put_all encode queue_id (offset + 1) ms (put_message placed raw s)

-- The counter in the batch, and in memory once the batch is ordered.
unfoldable pub advance : ℕ → Shelf → Shelf
advance n s = record s { alloc = some n; next = n; loaded = true }

-- The counter in memory alone.
unfoldable pub skip_offsets : ℕ → Shelf → Shelf
skip_offsets n s = record s { next = n; loaded = true }

-- The part of Append and of AppendBatch under the queue's lock; the flag is whether the call
-- succeeds. The counter in memory moves on before the wait for the disk.
unfoldable pub write_batch : Setting → ℕ → List Message → Shelf → Shelf × Bool
write_batch c queue_id ms s =
    let offset = next_offset s in
    elim (put_all c.encode queue_id offset ms s) [
      | none ↦ (s, false)
      | some written ↦ elim c.fate [
        | refused_batch ↦ (s, false)
        | dropped_batch ↦ (skip_offsets (offset + length ms) s, false)
        | unsynced_batch ↦ (advance (offset + length ms) written, false)
        | committed_batch ↦ (advance (offset + length ms) written, true)
      ]
    ]

-- The choice of a queue in turn: the first of the queues from rr on that this node leads; the
-- counters are uint32. Without one the number that was there stays.
unfoldable pub choose_from : (ℕ → Bool) → ℕ → ℕ → ℕ → ℕ → ℕ → ℕ
choose_from leads rr queues given i zero = given
choose_from leads rr queues given i (suc left) =
    let q = (rr + i) % 2 ^ 32 % queues in
    let rest = choose_from leads rr queues given (i + 1) left in if leads q then q else rest

unfoldable pub choose_queue : (ℕ → Bool) → ℕ → ℕ → ℕ → ℕ
choose_queue leads rr queues given = choose_from leads rr queues given 0 queues

unfoldable pub set_shelf : ℕ → Shelf → Producing → Producing
set_shelf q s p = record p { shelves = λ j. if j == q then s else p.shelves j }

unfoldable pub write_to : Setting → ℕ → List Message → Producing → Producing × Bool
write_to c q ms p = let (s, ok) = write_batch c q ms (p.shelves q) in (set_shelf q s p, ok)

unfoldable pub fill_in : Setting → ℕ → Message → Message
fill_in c i m = record m {
  id = if length m.id == 0 then c.new_id i else m.id;
  born_at_ms = if m.born_at_ms == 0 then c.now_ms else m.born_at_ms;
  store_at_ms = c.now_ms;
}

unfoldable pub fill_in_all : Setting → ℕ → List Message → List Message
fill_in_all c i [] = []
fill_in_all c i (m ∷ ms) = fill_in c i m ∷ fill_in_all c (i + 1) ms

unfoldable pub has_body : Message → Bool
has_body m = not (length m.body == 0 || ltb max_body_size (length m.body))

abbrev pub turned : Producing → Producing
turned p = record p { rr = (p.rr + 1) % 2 ^ 32 }

-- The queue of a message that belongs to no group, and the write to it.
unfoldable pub append_in_turn : Setting → ℕ → ℕ → List Message → Producing → Producing × Bool
append_in_turn c queues given ms p =
    let q = choose_queue c.leads p.rr queues given in
    if c.leads q then write_to c q ms (turned p) else (turned p, false)

unfoldable pub append : Setting → Message → Producing → Producing × Bool
append c m p =
    if has_body m
    then elim c.ensured [
      | none ↦ (p, false)
      | some queues ↦
          if length m.message_group == 0
          then append_in_turn c queues m.queue_id (fill_in c 0 m ∷ []) p
          else write_to c (c.fnv32a m.message_group % queues) (fill_in c 0 m ∷ []) p
    ]
    else (p, false)

-- The checks of AppendBatch: one topic, no transactional, delayed or grouped message, a body each.
unfoldable pub is_plain : List ℕ → Message → Bool
is_plain topic m =
    bytes_eq m.topic topic
    && not (m.transactional || ltb 0 m.deliver_at_ms || ltb 0 (length m.message_group))
    && has_body m

unfoldable pub all_plain : List ℕ → List Message → Bool
all_plain topic [] = true
all_plain topic (m ∷ ms) = is_plain topic m && all_plain topic ms

unfoldable pub append_batch : Setting → List Message → Producing → Producing × Bool
append_batch c [] p = (p, false)
append_batch c (m ∷ ms) p =
    if all_plain m.topic (m ∷ ms)
    then elim c.ensured [
      | none ↦ (p, false)
      | some queues ↦ append_in_turn c queues 0 (fill_in_all c 0 (m ∷ ms)) p
    ]
    else (p, false)

-- InvalidateCounters.
unfoldable pub invalidate : Producing → Producing
invalidate p = record p { shelves = λ j. record (p.shelves j) { loaded = false } }
