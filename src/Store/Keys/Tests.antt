-- ===== src/Store/Keys/Tests.antt =====
-- Keys of a small store, and the theorems on keys at them.
use sq.Common.{ℕ, ◌≡◌, ◌↔◌, refl, arith, true, List, [], ◌∷◌, ◌++◌, some, none, codes}
use sq.Store.Bytes.{put_u64, put_u32, uint64, uint32, big_endian, from_big_endian}
use sq.Store.Order.{has_prefix, in_range}
use sq.Store.Keys
use sq.Store.Keys.{cut_prefix, cut_name, cut_tail, index_byte, carry}
use sq.Store.Keys.RoundTrip.{parse_msg_key-msg_key}
use sq.Store.Keys.Range.{in_range-prefix_upper_bound}
use sq.Store.Keys.Scan.{in_range-msg_queue}

abbrev orders : List ℕ
orders = codes "orders"

abbrev workers : List ℕ
workers = codes "g1"

msg_key_bytes :
    Keys.msg_key orders 2 258
    ≡ codes "msg/orders/" ++ (0 ∷ 0 ∷ 0 ∷ 2 ∷ 0 ∷ 0 ∷ 0 ∷ 0 ∷ 0 ∷ 0 ∷ 1 ∷ 2 ∷ [])
unfolding Keys.msg_key put_u32 put_u64 big_endian
msg_key_bytes = refl

-- A queue id whose bytes hold a '/' does not mislead the parser.
parse_slash_queue :
    Keys.parse_msg_key
      (codes "msg/orders/" ++ (0 ∷ 0 ∷ 0 ∷ 47 ∷ 0 ∷ 0 ∷ 0 ∷ 0 ∷ 0 ∷ 0 ∷ 1 ∷ 2 ∷ []))
    ≡ some (orders, 47, 258)
unfolding Keys.parse_msg_key cut_prefix cut_name index_byte uint32 uint64 from_big_endian
parse_slash_queue = refl

parse_short_tail : Keys.parse_msg_key (codes "msg/orders/12345678901") ≡ none
unfolding Keys.parse_msg_key cut_prefix cut_name index_byte uint32 uint64 from_big_endian
parse_short_tail = refl

upper_bound_carries : Keys.prefix_upper_bound (1 ∷ 254 ∷ 255 ∷ []) ≡ some (1 ∷ 255 ∷ [])
unfolding Keys.prefix_upper_bound carry
upper_bound_carries = refl

parse_msg_key-msg_key_example :
    Keys.parse_msg_key (Keys.msg_key orders 47 258) ≡ some (orders, 47, 258)
parse_msg_key-msg_key_example =
    parse_msg_key-msg_key orders 47 258 (omega arith) (omega arith) (omega arith)

abbrev slash_key : List ℕ
slash_key = codes "msg/orders/" ++ (0 ∷ 0 ∷ 0 ∷ 47 ∷ 0 ∷ 0 ∷ 0 ∷ 0 ∷ 0 ∷ 0 ∷ 1 ∷ 2 ∷ [])

in_range-prefix_upper_bound_example :
    in_range (codes "msg/") (Keys.prefix_upper_bound (codes "msg/")) slash_key ≡ true
unfolding has_prefix
in_range-prefix_upper_bound_example =
    in_range-prefix_upper_bound (codes "msg/") slash_key (omega arith)

-- Queue 1 of "orders" and its neighbour, queue 2.
in_range-msg_queue_example :
    (in_range
        (Keys.msg_queue_prefix orders 2)
        (Keys.prefix_upper_bound (Keys.msg_queue_prefix orders 2))
        (Keys.msg_key orders 1 258)
      ≡ true)
    ↔ ((orders ≡ orders) × (◌≡◌ {A = ℕ} 1 2))
in_range-msg_queue_example =
    in_range-msg_queue orders orders 1 2 258 (omega arith) (omega arith) (omega arith) (omega arith)
      (unfold Keys.msg_key put_u32 put_u64 big_endian in omega arith)
