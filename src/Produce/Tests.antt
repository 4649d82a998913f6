-- ===== src/Produce/Tests.antt =====
-- Runs of the producer on small inputs.
use sq.Common.{
  ℕ, ◌-◌, ◌^◌, ◌<◌, ◌≡◌, refl, ap, sym, ◌∙◌, arith, true, false, List, [], ◌∷◌, Option, none, some,
  codes, ◌==◌, some-inj, bytes_eq,
}
use sq.Message.{Message}
use sq.Deliver.Table.{insert}
use sq.Deliver.Fetching.{IsStored}
use sq.Produce.Append.{
  committed_batch, Producing, Setting, append_batch, choose_from, choose_queue, next_offset,
}
use sq.Produce.Append.{
  all_plain, is_plain, has_body, append_in_turn, write_to, set_shelf, write_batch, put_all,
  fill_in_all, fill_in, advance, put_message, index_keys,
}
use sq.Produce.Choice.{choose_queue-IsChosen}
use sq.Produce.Offsets.{KeepsOffset, Reaches-IsStored, appends_batch, here, next, no_messages}

abbrev message : ℕ → Message
message offset = record {
  id = [];
  topic = codes "orders";
  queue_id = 0;
  offset = offset;
  tag = [];
  keys = codes "a" ∷ [] ∷ [];
  message_group = [];
  properties = [];
  body = 1 ∷ [];
  body_encoding = [];
  body_digest = none;
  born_at_ms = 0;
  born_host = [];
  store_at_ms = 0;
  deliver_at_ms = 0;
  trace_context = [];
  transactional = false;
  delivery_attempt = 0;
}

-- A stored message is its offset.
abbrev encode : Message → Option (List ℕ)
encode m = some (m.offset ∷ [])

abbrev decode : List ℕ → Option Message
decode [] = none
decode (offset ∷ rest) = some (message offset)

keeps_offset : KeepsOffset decode encode
keeps_offset m raw e m' d =
    ap (λ (x : Message). x.offset) (some-inj (sym d ∙ ap decode (sym (some-inj e))))

-- The topic has three queues, and this node leads the last one.
abbrev setting : Setting
setting = record {
  ensured = some 3;
  leads = λ q. q == 2;
  fnv32a = λ bs. 0;
  now_ms = 50;
  new_id = λ i. i ∷ [];
  encode = encode;
  fate = committed_batch;
}

abbrev empty : Producing
empty = record { shelves = λ q. no_messages; rr = 0 }

abbrev two : List Message
two = message 0 ∷ message 0 ∷ []

abbrev batched : Producing
batched = (append_batch setting two empty).0

two_messages : (batched.shelves 2).msgs ≡ (0, 0 ∷ []) ∷ (1, 1 ∷ []) ∷ []
unfolding append_batch all_plain is_plain bytes_eq has_body append_in_turn choose_queue choose_from
    write_to set_shelf write_batch put_all fill_in_all fill_in advance put_message insert
    next_offset index_keys
two_messages = refl

Reaches-IsStored_example : IsStored decode 0 (batched.shelves 2).msgs
unfolding next_offset
Reaches-IsStored_example =
    Reaches-IsStored decode empty batched (λ q. refl)
      (next (appends_batch setting two keeps_offset (λ q. omega arith)) here) 2

choose_queue-IsChosen_example :
    ((choose_queue (λ q. q == 2) 4 3 0 == 2) ≡ true) × (choose_queue (λ q. q == 2) 4 3 0 < 3)
choose_queue-IsChosen_example =
    choose_queue-IsChosen (λ q. q == 2) 4 3 0 2 (omega arith) (omega arith) refl

-- Where the counter wraps around, the round misses queue 2.
round_at_wrap : choose_queue (λ q. q == 2) (2 ^ 32 - 1) 3 0 ≡ 0
unfolding choose_queue choose_from
round_at_wrap = refl
