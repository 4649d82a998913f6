-- ===== src/Deliver/Tests.antt =====
-- The deliverer's properties at a small queue: four messages, a record that holds the order lock
-- and has expired, one that is still hidden, one whose message is gone.
use sq.Common.{
  ℕ, ◌≡◌, refl, sym, ap, arith, Bool, true, false, List, [], ◌∷◌, Option, none, some, codes,
}
use sq.Message.{Message}
use sq.Filter.{Filter, result_true}
use sq.Deliver.Table.{lookup}
use sq.Deliver.Lease.{Inflight, Lease}
use sq.Deliver.State.{Queue, Context, committed, moved, cursor_of}
use sq.Deliver.Receive.{Request, receive_once}
use sq.Deliver.Marks.{ordered_at, present}
use sq.Deliver.Fetching.{IsStored}
use sq.Deliver.Confirm.{AckEntry, state_of, ack_batch, change_invisible, forward_to_dlq}
use sq.Deliver.Acking.{
  ack_batch_whole, change_invisible_lem, AckOutcome, ChangeOutcome, IsForwardOutcome,
  forward_to_dlq_lem,
}
use sq.Deliver.Reach.{IsGood, here, next, receives, acks, Reaches-IsGood}
use sq.Deliver.Receiving.{IsQueueSound, left}
use sq.Deliver.Losses.{LosesNone, receive_once-LosesNone}
use sq.Deliver.Receipts.{IsReceiptList, receive_once-IsReceiptList}

abbrev message : ℕ → List ℕ → Message
message offset message_group = record {
  id = codes "id";
  topic = codes "orders";
  queue_id = 0;
  offset = offset;
  tag = [];
  keys = [];
  message_group = message_group;
  properties = [];
  body = [];
  body_encoding = [];
  body_digest = none;
  born_at_ms = 0;
  born_host = [];
  store_at_ms = 0;
  deliver_at_ms = 0;
  trace_context = [];
  transactional = false;
  delivery_attempt = 0;
}

-- A stored message is its offset and its group.
abbrev decode : List ℕ → Option Message
decode [] = none
decode (offset ∷ message_group) = some (message offset message_group)

abbrev context : Context
context = record {
  group = codes "billing";
  topic = codes "orders";
  queue_id = 0;
  now_ms = 1_000;
  decode = decode;
  commit = committed;
  dead_letter_fate = λ offset. moved;
}

abbrev match_all : Filter
match_all = record { is_tag_filter = true; matches = λ m. result_true }

abbrev no_lease : Lease
no_lease = record { owner = []; max_renew = 0; alive = none }

abbrev request : Request
request = record {
  max_msgs = 3;
  invisible = 30_000_000_000;
  max_attempts = 2;
  filter = match_all;
  lease = no_lease;
}

abbrev held : ℕ → ℕ → Bool → Inflight
held expire_at_ms attempts ordered = record {
  expire_at_ms = expire_at_ms;
  attempts = attempts;
  ordered = ordered;
  owner = [];
  renew_until_ms = 0;
}

abbrev queue : Queue
queue = record {
  msgs = (2, 2 ∷ codes "g") ∷ (3, 3 ∷ []) ∷ (4, 4 ∷ codes "g") ∷ (5, 5 ∷ codes "g") ∷ [];
  inflight = (1, held 500 1 false) ∷ (2, held 500 2 true) ∷ (3, held 2_000 1 false) ∷ [];
  cursor = some 4;
  dead_letters = [];
  skipped = record { tag_misses = 0; sql_falses = 0; sql_unknowns = 0 };
}

offset_or : ℕ → Option Message → ℕ
offset_or n none = n
offset_or n (some m) = m.offset

own : (k : ℕ) (g : List ℕ) (m : Message) → some (message k g) ≡ some m → m.offset ≡ k
unfolding offset_or
own k g m e = sym (ap (offset_or 0) e)

queue-IsStored : IsStored decode 0 queue.msgs
queue-IsStored = (
  omega arith,
  omega arith,
  own 2 _,
  (
    omega arith,
    omega arith,
    own 3 _,
    (omega arith, omega arith, own 4 _, (omega arith, omega arith, own 5 _, tt)),
  ),
)

queue-IsQueueSound : IsQueueSound queue
unfolding cursor_of
queue-IsQueueSound = record {
  ascends = (omega arith, (omega arith, (omega arith, tt)));
  one_ordered = λ i j hi hj. (unfold ordered_at lookup in ground arith);
  below = λ i hi. (unfold present lookup in ground arith);
}

receive_once-IsReceiptList_example :
    IsReceiptList context request (receive_once context request queue)
receive_once-IsReceiptList_example =
    receive_once-IsReceiptList context request queue queue-IsStored queue-IsQueueSound

abbrev entries : List AckEntry
entries =
    record { offset = 3; attempt = 1 }
    ∷ record { offset = 2; attempt = 1 }
    ∷ record { offset = 9; attempt = 1 }
    ∷ []

ack_batch_whole_example : AckOutcome context queue entries (ack_batch context queue entries)
ack_batch_whole_example = ack_batch_whole context queue entries

change_invisible_lem_example :
    ChangeOutcome context queue 3 1 6_000
      (change_invisible context queue 1_000_000_000 3 1 5_000_000_000)
change_invisible_lem_example = change_invisible_lem context queue 1_000_000_000 3 1 5_000_000_000

forward_to_dlq_lem_example : IsForwardOutcome context queue 2 2 (forward_to_dlq context queue 2 2)
forward_to_dlq_lem_example = forward_to_dlq_lem context queue 2 2

abbrev served : Queue
served = left (receive_once context request queue)

Reaches-IsGood_example : IsGood decode (state_of (ack_batch context served entries))
Reaches-IsGood_example =
    Reaches-IsGood decode queue _
      (next (next here (receives context request refl)) (acks context entries))
      (queue-IsStored, queue-IsQueueSound)

abbrev session : Lease
session = record { owner = codes "c1"; max_renew = 60_000_000_000; alive = some (λ owner. true) }

abbrev owned : Inflight
owned = record {
  expire_at_ms = 900;
  attempts = 1;
  ordered = true;
  owner = codes "c1";
  renew_until_ms = 5_000;
}

receive_once-LosesNone_example :
    LosesNone context request 4 (left (receive_once context request queue)) queue.msgs
unfolding cursor_of
receive_once-LosesNone_example =
    receive_once-LosesNone context request queue queue-IsStored queue-IsQueueSound
