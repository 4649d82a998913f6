-- ===== src/Broker.antt =====
-- The producer of internal/core/produce/produce.go and the deliverer of
-- internal/core/deliver/deliver.go on one queue of a topic: the deliverer reads what the producer
-- has written.
pub mod Tests
use sq.Common.{ℕ, ◌≡◌, refl, List, [], none, Option}
use sq.Message.{Message}
use sq.Deliver.State.{Context, Queue}
use sq.Deliver.Table.{Table}
use sq.Deliver.Receive.{Request, receive_once}
use sq.Deliver.Confirm.{
  AckEntry, ack_batch, change_invisible, forward_to_dlq, reset_cursor, state_of,
}
use sq.Deliver.Fetching.{IsStored}
use sq.Deliver.Receiving.{left}
use sq.Deliver.Reach
use sq.Produce.Offsets
use sq.Deliver.Reach.{IsGood}
use sq.Produce.Append.{Producing, set_shelf}
use sq.Produce.Offsets.{Reaches-IsStored, no_messages}

-- The producer of the topic with the stored messages, and what the deliverer keeps of the queue: of
-- the messages there is one copy, in the store.
pub record Broker : Type 0 where
  pub producing : Producing
  pub queue : Queue

-- Nothing is stored, and nothing was delivered.
abbrev pub new_queue : Queue
new_queue = record {
  msgs = [];
  inflight = [];
  cursor = none;
  dead_letters = [];
  skipped = record { tag_misses = 0; sql_falses = 0; sql_unknowns = 0 };
}

abbrev pub new_broker : Broker
new_broker = record { producing = record { shelves = λ q. no_messages; rr = 0 }; queue = new_queue }

module _ (decode : List ℕ → Option Message) where
  -- A call of the deliverer.
  pub data Calls : Queue → Queue → Type 0 where
    receives :
        {q : Queue} (c : Context) (r : Request)
        → c.decode ≡ decode
        → Calls q (left (receive_once c r q))
    acks : {q : Queue} (c : Context) (es : List AckEntry) → Calls q (state_of (ack_batch c q es))
    changes :
        {q : Queue} (c : Context) (now_ns offset attempt invisible : ℕ)
        → Calls q (state_of (change_invisible c q now_ns offset attempt invisible))
    forwards :
        {q : Queue} (c : Context) (offset attempt : ℕ)
        → c.decode ≡ decode
        → Calls q (state_of (forward_to_dlq c q offset attempt))
    resets : {q : Queue} (c : Context) (offset : ℕ) → Calls q (state_of (reset_cursor c q offset))

  module _ (n : ℕ) where
    -- Queue n as a call of the deliverer finds it, and the store as the call leaves it.
    abbrev pub seen : Broker → Queue
    seen b = record (b.queue) { msgs = (b.producing.shelves n).msgs }

    abbrev pub put_back : Broker → Queue → Broker
    put_back b q = record {
      producing = set_shelf n (record (b.producing.shelves n) { msgs = q.msgs }) b.producing;
      queue = q;
    }

    -- A call of the producer, or a call of the deliverer, on the one store.
    pub data Happens : Broker → Broker → Type 0 where
      produces :
          {b : Broker} {p : Producing}
          → sq.Produce.Offsets.Happens decode b.producing p
          → Happens b (record b { producing = p })
      consumes : {b : Broker} {q : Queue} → Calls (seen b) q → Happens b (put_back b q)

    pub data Runs : Broker → Broker → Type 0 where
      starts : {b : Broker} → Runs b b
      goes : {a b d : Broker} → Runs a b → Happens b d → Runs a d

    -- The store is one that the calls of the producer alone reach, and the queue over it is sound.
    abbrev pub IsInStep : Broker → Type 0
    IsInStep b =
        sq.Produce.Offsets.Reaches decode new_broker.producing b.producing × IsGood decode (seen b)

    stored :
        (p : Producing)
        → sq.Produce.Offsets.Reaches decode new_broker.producing p
        → IsStored decode 0 (p.shelves n).msgs
    stored p way = Reaches-IsStored decode new_broker.producing p (λ j. refl) way n
