-- ===== src/Retention/Tests.antt =====
-- The purge of a queue of three messages, and of a key index of two entries.
use sq.Common.{
  ◌==◌, ℕ, ◌≡◌, Bool, refl, ap, sym, arith, true, List, [], ◌∷◌, Option, none, some, codes, All,
  ◌⊎◌, ◌≤◌, take, drop, some-inj,
}
use sq.Message.{Message}
use sq.Deliver.Table.{Table}
use sq.Deliver.State.{committed, rejected}
use sq.Deliver.Fetching.{IsStored}
use sq.Retention.Purge.{
  purge_key_idx, commit_range, delete_below, expired_run, max_purge_per_queue, purge_queue,
}
use sq.Store.Keys.{key_idx_key}
use sq.Txn.Records.{Records, get}
use sq.Retention.Index.{Goes, purge_key_idx-get}
use sq.Retention.Queues.{Ends, IsExpired, purge_queue-cuts, purge_queue-whole}

abbrev sent : ℕ → ℕ → Message
sent offset ms = record {
  id = codes "id";
  topic = codes "orders";
  queue_id = 0;
  offset = offset;
  tag = [];
  keys = [];
  message_group = [];
  properties = [];
  body = 1 ∷ [];
  body_encoding = [];
  body_digest = none;
  born_at_ms = 0;
  born_host = [];
  store_at_ms = ms;
  deliver_at_ms = 0;
  trace_context = [];
  transactional = true;
  delivery_attempt = 0;
}

-- A message is written as its offset and its time.
abbrev decode : List ℕ → Option Message
decode [] = none
decode (offset ∷ []) = none
decode (offset ∷ ms ∷ rest) = some (sent offset ms)

-- The queue begins at offset 1; the cutoff 100 lies behind its first two messages.
abbrev queue : Table (List ℕ)
queue = (1, 1 ∷ 40 ∷ []) ∷ (2, 2 ∷ 90 ∷ []) ∷ (4, 4 ∷ 120 ∷ []) ∷ []

own : (o ms : ℕ) (m : Message) → some (sent o ms) ≡ some m → m.offset ≡ o
own o ms m e = sym (ap (λ (n : Message). n.offset) (some-inj e))

queue-IsStored : IsStored decode 0 queue
queue-IsStored = (
  omega arith,
  omega arith,
  own 1 40,
  (omega arith, omega arith, own 2 90, (omega arith, omega arith, own 4 120, tt)),
)

purge_run : (purge_queue decode 100 true committed queue).msgs ≡ (4, 4 ∷ 120 ∷ []) ∷ []
unfolding purge_queue expired_run commit_range delete_below
purge_run = refl

purge_queue-cuts_example :
    (k : ℕ) × ((purge_queue decode 100 true rejected queue).msgs ≡ drop k queue)
    × All (IsExpired decode 100) (take k queue)
    × (k ≤ max_purge_per_queue)
purge_queue-cuts_example = purge_queue-cuts decode 100 true rejected queue queue-IsStored

purge_queue-whole_example :
    (k : ℕ) × ((purge_queue decode 100 true committed queue).msgs ≡ drop k queue)
    × All (IsExpired decode 100) (take k queue)
    × ((purge_queue decode 100 true committed queue).found ≡ k)
    × ((k ≡ max_purge_per_queue) ⊎ Ends decode 100 (drop k queue))
unfolding purge_queue expired_run commit_range
purge_queue-whole_example = purge_queue-whole decode 100 committed queue queue-IsStored refl

abbrev orders : List ℕ
orders = codes "orders"

abbrev entry : ℕ → ℕ → ℕ → List ℕ × List ℕ
entry ms q o = (key_idx_key orders (codes "k") ms q o, [])

-- An old entry of queue 0 and one of queue 1; the node leads queue 0.
abbrev entries : Records
entries = entry 40 0 1 ∷ entry 90 1 2 ∷ []

abbrev leads_first : ℕ → Bool
leads_first q = q == 0

purge_key_idx-get_example :
    (get
        (entry 40 0 1).0
        (purge_key_idx leads_first (λ q. committed) (1 ∷ 0 ∷ []) orders 100 entries).0
      ≡ get (entry 40 0 1).0 entries)
    ⊎ ((q : ℕ) × (leads_first q ≡ true) × Goes orders 100 (q, (entry 40 0 1).0))
purge_key_idx-get_example =
    purge_key_idx-get orders 100 leads_first (λ q. committed) (1 ∷ 0 ∷ []) (entry 40 0 1).0 entries
