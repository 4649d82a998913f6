-- ===== src/Store/Keys.antt =====
-- internal/store/keys.go: the key of every record, and the parsers of those keys. A key is the
-- list of its bytes; a parser's error is `none`, its text is not modelled. `int64` times are
-- numbers: wall-clock milliseconds are never negative.
pub mod Fields
pub mod RoundTrip
pub mod Exact
pub mod Halves
pub mod Range
pub mod Scan
mod Tests
use sq.Common.{
  ℕ, ◌+◌, ◌-◌, ◌≡◌, ◌≢◌, List, [], ◌∷◌, ◌++◌, Option, none, some, length, take, drop, ltb, ◌==◌,
  ◌>>=◌, if◌then◌else◌, codes, All, reverse, ◌||◌, not,
}
use sq.Store.Bytes.{put_u64, put_u32, uint64, uint32, get_u64}

abbrev pub topic_meta_prefix : List ℕ
topic_meta_prefix = codes "meta/topic/"

abbrev pub group_meta_prefix : List ℕ
group_meta_prefix = codes "meta/group/"

abbrev pub msg_prefix : List ℕ
msg_prefix = codes "msg/"

abbrev pub alloc_prefix : List ℕ
alloc_prefix = codes "alloc/"

abbrev pub cursor_prefix : List ℕ
cursor_prefix = codes "cursor/"

abbrev pub inflight_prefix_name : List ℕ
inflight_prefix_name = codes "inflight/"

abbrev pub key_idx_prefix : List ℕ
key_idx_prefix = codes "keyidx/"

abbrev pub delay_prefix : List ℕ
delay_prefix = codes "delay/"

abbrev pub metric_prefix : List ℕ
metric_prefix = codes "metric/"

abbrev pub half_prefix : List ℕ
half_prefix = codes "half/"

abbrev pub half_idx_prefix : List ℕ
half_idx_prefix = codes "halfidx/"

abbrev pub slash : ℕ
slash = b'/'

-- The names of topics and groups hold no '/', by the check of internal/core/meta.
abbrev pub IsName : List ℕ → Type 0
IsName = All (λ c. c ≢ slash)

-- bytes.CutPrefix.
pub cut_prefix : List ℕ → List ℕ → Option (List ℕ)
cut_prefix k [] = some k
cut_prefix [] (p ∷ ps) = none
cut_prefix (c ∷ k) (p ∷ ps) = let rest = cut_prefix k ps in if c == p then rest else none

-- bytes.IndexByte.
pub index_byte : List ℕ → ℕ → Option ℕ
index_byte [] c = none
index_byte (b ∷ bs) c =
    let rest = index_byte bs c in if b == c then some 0 else (rest >>= λ i. some (i + 1))

-- `i := bytes.IndexByte(rest, '/')`, then `rest[:i]` and `rest[i+1:]`.
pub cut_name : List ℕ → Option (List ℕ × List ℕ)
unfolding index_byte
cut_name rest = index_byte rest slash >>= λ i. some (take i rest, drop (i + 1) rest)

pub msg_key : List ℕ → ℕ → ℕ → List ℕ
msg_key topic queue_id offset =
    msg_prefix ++ (topic ++ (slash ∷ (put_u32 queue_id ++ put_u64 offset)))

-- `k[:len(k)-n]`.
abbrev pub drop_last : ℕ → List ℕ → List ℕ
drop_last n k = take (length k - n) k

pub msg_queue_prefix : List ℕ → ℕ → List ℕ
unfolding msg_key
msg_queue_prefix topic queue_id = drop_last 8 (msg_key topic queue_id 0)

-- `len(rest)-i-1 != 12` asks for the length of what follows the '/'.
pub parse_msg_key : List ℕ → Option (List ℕ × ℕ × ℕ)
parse_msg_key k = do
  rest ← cut_prefix k msg_prefix
  (topic, bin) ← cut_name rest
  if length bin == 12 then some (topic, uint32 (take 4 bin), uint64 (drop 4 bin)) else none

pub alloc_key : List ℕ → ℕ → List ℕ
alloc_key topic queue_id = alloc_prefix ++ (topic ++ (slash ∷ put_u32 queue_id))

pub cursor_key : List ℕ → List ℕ → ℕ → List ℕ
cursor_key group topic queue_id =
    cursor_prefix ++ (group ++ (slash ∷ (topic ++ (slash ∷ put_u32 queue_id))))

pub inflight_key : List ℕ → List ℕ → ℕ → ℕ → List ℕ
inflight_key group topic queue_id offset =
    inflight_prefix_name
    ++ (group ++ (slash ∷ (topic ++ (slash ∷ (put_u32 queue_id ++ put_u64 offset)))))

pub inflight_prefix : List ℕ → List ℕ → ℕ → List ℕ
unfolding inflight_key
inflight_prefix group topic queue_id = drop_last 8 (inflight_key group topic queue_id 0)

pub parse_inflight_key : List ℕ → Option (List ℕ × List ℕ × ℕ × ℕ)
parse_inflight_key k = do
  rest ← cut_prefix k inflight_prefix_name
  (group, rest') ← cut_name rest
  (topic, bin) ← cut_name rest'
  if length bin == 12 then some (group, topic, uint32 (take 4 bin), uint64 (drop 4 bin)) else none

pub parse_cursor_key : List ℕ → Option (List ℕ × List ℕ × ℕ)
parse_cursor_key k = do
  rest ← cut_prefix k cursor_prefix
  (group, rest') ← cut_name rest
  (topic, bin) ← cut_name rest'
  if length bin == 4 then some (group, topic, uint32 bin) else none

pub topic_meta_key : List ℕ → List ℕ
topic_meta_key topic = topic_meta_prefix ++ topic

pub group_meta_key : List ℕ → List ℕ
group_meta_key group = group_meta_prefix ++ group

-- The loop from the last byte down, over the bytes in reverse: `none` when every byte is 0xFF.
pub carry : List ℕ → Option (List ℕ)
carry [] = none
carry (b ∷ before) = let rest = carry before in if ltb b 0xFF then some ((b + 1) ∷ before) else rest

pub prefix_upper_bound : List ℕ → Option (List ℕ)
unfolding carry
prefix_upper_bound prefix = carry (reverse prefix) >>= λ up. some (reverse up)

pub delay_key : ℕ → ℕ → List ℕ
delay_key due_ms seq = delay_prefix ++ (put_u64 due_ms ++ put_u64 seq)

pub delay_scan_upper_bound : ℕ → List ℕ
unfolding delay_key
delay_scan_upper_bound now_ms = delay_key (now_ms + 1) 0

pub parse_delay_key : List ℕ → Option (ℕ × ℕ)
parse_delay_key k = do
  rest ← cut_prefix k delay_prefix
  if length rest == 16 then some (uint64 (take 8 rest), uint64 (drop 8 rest)) else none

unfoldable pub half_key : ℕ → List ℕ → List ℕ
half_key next_check_ms tx_id = half_prefix ++ (put_u64 next_check_ms ++ tx_id)

pub half_scan_upper_bound : ℕ → List ℕ
unfolding half_key
half_scan_upper_bound now_ms = half_key (now_ms + 1) []

pub parse_half_key : List ℕ → Option (ℕ × List ℕ)
parse_half_key k = do
  rest ← cut_prefix k half_prefix
  if ltb 8 (length rest) then some (uint64 (take 8 rest), drop 8 rest) else none

pub key_idx_key : List ℕ → List ℕ → ℕ → ℕ → ℕ → List ℕ
key_idx_key topic key store_ms queue_id offset =
    key_idx_prefix
    ++ (topic
        ++ (slash ∷ (key ++ (slash ∷ (put_u64 store_ms ++ (put_u32 queue_id ++ put_u64 offset))))))

pub key_idx_key_prefix : List ℕ → List ℕ → List ℕ
unfolding key_idx_key
key_idx_key_prefix topic key = drop_last 20 (key_idx_key topic key 0 0 0)

-- `rest[len(rest)-21]` and what stands around it; `none` unless it is a '/'.
pub cut_tail : List ℕ → Option (List ℕ × List ℕ)
cut_tail rest = elim (drop (length rest - 21) rest) [
  | [] ↦ none
  | c ∷ bin ↦
      if ltb (length rest) 21 || not (c == slash)
      then none
      else some (take (length rest - 21) rest, bin)
]

pub parse_key_idx_key : List ℕ → Option (List ℕ × List ℕ × ℕ × ℕ × ℕ)
parse_key_idx_key k = do
  rest ← cut_prefix k key_idx_prefix
  (topic, rest') ← cut_name rest
  (key, bin) ← cut_tail rest'
  some (topic, key, uint64 (take 8 bin), uint32 (take 4 (drop 8 bin)), uint64 (drop 12 bin))

pub parse_key_idx_queue_id : List ℕ → Option ℕ
parse_key_idx_queue_id k = do
  rest ← cut_prefix k key_idx_prefix
  (front, bin) ← cut_tail rest
  some (uint32 (take 4 (drop 8 bin)))

pub metric_key : ℕ → List ℕ
metric_key ts_ms = metric_prefix ++ put_u64 ts_ms

pub parse_metric_key : List ℕ → Option ℕ
parse_metric_key k = do
  rest ← cut_prefix k metric_prefix
  if length rest == 8 then get_u64 rest else none

pub delay_alloc_key : List ℕ
delay_alloc_key = codes "delayalloc"

unfoldable pub half_idx_key : List ℕ → List ℕ
half_idx_key tx_id = half_idx_prefix ++ tx_id

pub handle_secret_key : List ℕ
handle_secret_key = codes "meta/handle_secret"

pub key_idx_topic_prefix : List ℕ → List ℕ
key_idx_topic_prefix topic = key_idx_prefix ++ (topic ++ (slash ∷ []))

pub cursor_group_prefix : List ℕ → List ℕ
cursor_group_prefix group = cursor_prefix ++ (group ++ (slash ∷ []))

pub inflight_group_prefix : List ℕ → List ℕ
inflight_group_prefix group = inflight_prefix_name ++ (group ++ (slash ∷ []))

pub parse_cursor_topic_queue : List ℕ → Option (List ℕ × ℕ)
unfolding parse_cursor_key
parse_cursor_topic_queue k = do (group, topic, qid) ← parse_cursor_key k; some (topic, qid)
