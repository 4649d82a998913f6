-- ===== src/Broker/Tests.antt =====
-- The producer and the deliverer together on a small run.
use sq.Common.{ℕ, true, false, List, [], ◌∷◌, Option, none, some, codes, ◌==◌}
use sq.Message.{Message}
use sq.Filter.{Filter, result_true}
use sq.Deliver.Lease.{Lease}
use sq.Deliver.State.{Context, committed, moved}
use sq.Deliver.Receive.{Request, receive_once}
use sq.Deliver.Receiving.{left}
use sq.Produce.Append.{committed_batch, Producing, Setting, append_batch}
use sq.Broker.{put_back, seen, Broker, new_broker}

abbrev message : ℕ → Message
message offset = record {
  id = [];
  topic = codes "orders";
  queue_id = 0;
  offset = offset;
  tag = [];
  keys = codes "a" ∷ [] ∷ [];
  message_group = [];
  properties = [];
  body = 1 ∷ [];
  body_encoding = [];
  body_digest = none;
  born_at_ms = 0;
  born_host = [];
  store_at_ms = 0;
  deliver_at_ms = 0;
  trace_context = [];
  transactional = false;
  delivery_attempt = 0;
}

-- A stored message is its offset.
abbrev encode : Message → Option (List ℕ)
encode m = some (m.offset ∷ [])

abbrev decode : List ℕ → Option Message
decode [] = none
decode (offset ∷ rest) = some (message offset)

-- The topic has three queues, and this node leads the last one.
abbrev setting : Setting
setting = record {
  ensured = some 3;
  leads = λ q. q == 2;
  fnv32a = λ bs. 0;
  now_ms = 50;
  new_id = λ i. i ∷ [];
  encode = encode;
  fate = committed_batch;
}

abbrev two : List Message
two = message 0 ∷ message 0 ∷ []

abbrev batched : Producing
batched = (append_batch setting two new_broker.producing).0

abbrev context : Context
context = record {
  group = codes "billing";
  topic = codes "orders";
  queue_id = 0;
  now_ms = 1_000;
  decode = decode;
  commit = committed;
  dead_letter_fate = λ offset. moved;
}

abbrev match_all : Filter
match_all = record { is_tag_filter = true; matches = λ m. result_true }

abbrev no_lease : Lease
no_lease = record { owner = []; max_renew = 0; alive = none }

abbrev request : Request
request = record {
  max_msgs = 3;
  invisible = 30_000_000_000;
  max_attempts = 2;
  filter = match_all;
  lease = no_lease;
}

-- After the batch, and after a receive.
abbrev filled : Broker
filled = record new_broker { producing = batched }

abbrev served : Broker
served = put_back decode 2 filled (left (receive_once context request (seen decode 2 filled)))
