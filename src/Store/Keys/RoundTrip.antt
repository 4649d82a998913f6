-- ===== src/Store/Keys/RoundTrip.antt =====
-- Every parser of internal/store/keys.go reads back the key that the builder wrote.
use sq.Common.{
  ℕ, ◌+◌, ◌<◌, ◌≡◌, sym, arith, List, ◌∷◌, ◌++◌, some, length, length-append, take-append_length,
  drop-append_length, lt→ltb, append_assoc,
}
use sq.Store.Bytes.{IsU32, IsU64, put_u64, put_u32, get_u64}
use sq.Store.Keys
use sq.Store.Keys.{slash, IsName, cut_tail, cut_prefix}
use sq.Store.Keys.Fields.{
  tail20, tail20_fields, length-tail20, cut_tail-append, coords, coords_fields, pair64_fields,
  cut_prefix-append, cut_name-append, length-put_u64, length-put_u32, uint64-put_u64,
  uint32-put_u32,
}

-- A message key of a topic without '/', a 32-bit queue and a 64-bit offset parses to that topic,
-- queue and offset.
pub parse_msg_key-msg_key :
    (topic : List ℕ) (q o : ℕ)
    → IsName topic
    → IsU32 q
    → IsU64 o
    → Keys.parse_msg_key (Keys.msg_key topic q o) ≡ some (topic, q, o)
unfolding Keys.parse_msg_key Keys.msg_key
parse_msg_key-msg_key topic q o h hq ho =
    let (len, eq, eo) = coords_fields q o hq ho in
    rw (
      cut_prefix-append Keys.msg_prefix (topic ++ (slash ∷ coords q o)),
      cut_name-append topic (coords q o) h,
      len,
      eq,
      eo,
    )

-- An inflight key of a group and a topic without '/', a 32-bit queue and a 64-bit offset parses to
-- these four.
pub parse_inflight_key-inflight_key :
    (group topic : List ℕ) (q o : ℕ)
    → IsName group
    → IsName topic
    → IsU32 q
    → IsU64 o
    → Keys.parse_inflight_key (Keys.inflight_key group topic q o) ≡ some (group, topic, q, o)
unfolding Keys.parse_inflight_key Keys.inflight_key
parse_inflight_key-inflight_key group topic q o hg h hq ho =
    let (len, eq, eo) = coords_fields q o hq ho in
    rw (
      cut_prefix-append Keys.inflight_prefix_name
          (group ++ (slash ∷ (topic ++ (slash ∷ coords q o)))),
      cut_name-append group (topic ++ (slash ∷ coords q o)) hg,
      cut_name-append topic (coords q o) h,
      len,
      eq,
      eo,
    )

-- A cursor key parses to its group, topic and queue.
pub parse_cursor_key-cursor_key :
    (group topic : List ℕ) (q : ℕ)
    → IsName group
    → IsName topic
    → IsU32 q
    → Keys.parse_cursor_key (Keys.cursor_key group topic q) ≡ some (group, topic, q)
unfolding Keys.parse_cursor_key Keys.cursor_key
parse_cursor_key-cursor_key group topic q hg h hq = rw (
  cut_prefix-append Keys.cursor_prefix (group ++ (slash ∷ (topic ++ (slash ∷ put_u32 q)))),
  cut_name-append group (topic ++ (slash ∷ put_u32 q)) hg,
  cut_name-append topic (put_u32 q) h,
  length-put_u32 q,
  uint32-put_u32 q hq,
)

-- An index key of a topic without '/', a 32-bit queue and a 64-bit time and offset parses to its
-- parts for every business key, one with '/' in it too.
pub parse_key_idx_key-key_idx_key :
    (topic key : List ℕ) (ms q o : ℕ)
    → IsName topic
    → IsU64 ms
    → IsU32 q
    → IsU64 o
    → Keys.parse_key_idx_key (Keys.key_idx_key topic key ms q o) ≡ some (topic, key, ms, q, o)
unfolding Keys.parse_key_idx_key Keys.key_idx_key
parse_key_idx_key-key_idx_key topic key ms q o h hm hq ho =
    let (em, eq, eo) = tail20_fields ms q o hm hq ho in
    let rest = key ++ (slash ∷ tail20 ms q o) in
    rw (
      cut_prefix-append Keys.key_idx_prefix (topic ++ (slash ∷ rest)),
      cut_name-append topic rest h,
      cut_tail-append key (tail20 ms q o) (length-tail20 ms q o),
      em,
      eq,
      eo,
    )

-- The parser that reads the queue alone agrees with the whole parser.
pub parse_key_idx_queue_id-key_idx_key :
    (topic key : List ℕ) (ms q o : ℕ)
    → IsU64 ms
    → IsU32 q
    → IsU64 o
    → Keys.parse_key_idx_queue_id (Keys.key_idx_key topic key ms q o) ≡ some q
unfolding Keys.parse_key_idx_queue_id Keys.key_idx_key
parse_key_idx_queue_id-key_idx_key topic key ms q o hm hq ho =
    let (em, eq, eo) = tail20_fields ms q o hm hq ho in
    rw (
      cut_prefix-append Keys.key_idx_prefix (topic ++ (slash ∷ (key ++ (slash ∷ tail20 ms q o)))),
      sym (append_assoc topic (slash ∷ key) (slash ∷ tail20 ms q o)),
      cut_tail-append (topic ++ (slash ∷ key)) (tail20 ms q o) (length-tail20 ms q o),
      eq,
    )

-- A delay key parses to its due time and sequence number.
pub parse_delay_key-delay_key :
    (due seq : ℕ)
    → IsU64 due
    → IsU64 seq
    → Keys.parse_delay_key (Keys.delay_key due seq) ≡ some (due, seq)
unfolding Keys.parse_delay_key Keys.delay_key
parse_delay_key-delay_key due seq hd hs =
    let (len, ed, es) = pair64_fields due seq hd hs in
    rw (cut_prefix-append Keys.delay_prefix (put_u64 due ++ put_u64 seq), len, ed, es)

-- A half-message key parses to its check time and transaction id, which must not be empty.
pub parse_half_key-half_key :
    (ms : ℕ) (tx_id : List ℕ)
    → IsU64 ms
    → 0 < length tx_id
    → Keys.parse_half_key (Keys.half_key ms tx_id) ≡ some (ms, tx_id)
unfolding Keys.parse_half_key Keys.half_key
parse_half_key-half_key ms tx_id hm h = rw (
  cut_prefix-append Keys.half_prefix (put_u64 ms ++ tx_id),
  length-append (put_u64 ms) tx_id,
  length-put_u64 ms,
  lt→ltb 8 (8 + length tx_id) (omega arith),
  take-append_length (put_u64 ms) tx_id 8 (sym (length-put_u64 ms)),
  drop-append_length (put_u64 ms) tx_id 8 (sym (length-put_u64 ms)),
  uint64-put_u64 ms hm,
)

-- A metric key parses to its time.
pub parse_metric_key-metric_key :
    (ms : ℕ) → IsU64 ms → Keys.parse_metric_key (Keys.metric_key ms) ≡ some ms
unfolding Keys.parse_metric_key Keys.metric_key get_u64
parse_metric_key-metric_key ms hm =
    rw (cut_prefix-append Keys.metric_prefix (put_u64 ms), length-put_u64 ms, uint64-put_u64 ms hm)
