-- ===== src/Deliver/State.antt =====
-- The state of a (group, topic, queue) that internal/core/deliver/deliver.go reads and writes, and
-- the arguments of its calls.
use sq.Common.{
  ℕ, zero, suc, ◌+◌, ◌/◌, ◌%◌, Bool, true, false, List, [], ◌∷◌, ◌++◌, Option, none, some, codes,
  bytes_eq, if◌then◌else◌, ltb,
}
use sq.Message.{Message}
use sq.Filter.{SkipReason, tag_miss, sql_false, sql_unknown}
use sq.Meta.Names.{validate_name, dlq_topic_name}
use sq.Deliver.Table.{Table, delete}
use sq.Deliver.Lease.{Inflight}

-- The part of `Deliverer.skipped` that counts for this topic and group.
pub record Skips : Type 0 where
  pub tag_misses : ℕ
  pub sql_falses : ℕ
  pub sql_unknowns : ℕ

unfoldable pub count_skip : SkipReason → Skips → Skips
count_skip tag_miss s = record s { tag_misses = s.tag_misses + 1 }
count_skip sql_false s = record s { sql_falses = s.sql_falses + 1 }
count_skip sql_unknown s = record s { sql_unknowns = s.sql_unknowns + 1 }

-- The records under msg/, inflight/ and cursor/ of the queue, the messages that were written to the
-- group's dead-letter topic, and the counts. A stored message is its bytes.
pub record Queue : Type 0 where
  pub msgs : Table (List ℕ)
  pub inflight : Table Inflight
  pub cursor : Option ℕ
  pub dead_letters : List Message
  pub skipped : Skips

-- A missing cursor record reads as 0.
unfoldable pub cursor_of : Queue → ℕ
cursor_of q = elim q.cursor [ none ↦ 0 | some c ↦ c ]

-- What becomes of a batch: ApplyAsync refuses it; it is ordered but Wait fails; it is durable.
pub data Commit : Type 0 where
  rejected unsynced committed : Commit

-- What becomes of the two steps of moveToDLQ: the topic or the message is refused; the message is
-- written but its Wait fails or the delete of the source record is refused, either of which leaves
-- the message and the record; the delete is ordered but its Wait fails; both are done.
pub data DeadLetterFate : Type 0 where
  append_fails delete_fails delete_unsynced moved : DeadLetterFate

-- Where a call works and what it meets: names, the clock (time.Now().UnixMilli()), the decoder of
-- messages, and the outcomes of the writes.
pub record Context : Type 0 where
  pub group : List ℕ
  pub topic : List ℕ
  pub queue_id : ℕ
  pub now_ms : ℕ
  pub decode : List ℕ → Option Message
  pub commit : Commit
  pub dead_letter_fate : ℕ → DeadLetterFate

-- The digits of a number, strconv.FormatUint(n, 10): at most 20 for 64 bits.
unfoldable pub digits : ℕ → ℕ → List ℕ
digits zero n = []
digits (suc k) n =
    let front = digits k (n / 10) in
    if ltb n 10 then (b'0' + n) ∷ [] else front ++ ((b'0' + n % 10) ∷ [])

unfoldable pub format_uint : ℕ → List ℕ
unfolding digits
format_uint n = digits 20 n

-- `props[k] = v`.
unfoldable pub set_prop : List ℕ → List ℕ → List (List ℕ × List ℕ) → List (List ℕ × List ℕ)
set_prop k v [] = (k, v) ∷ []
set_prop k v ((j, w) ∷ props) =
    let rest = set_prop k v props in if bytes_eq j k then (k, v) ∷ props else (j, w) ∷ rest

-- The texts of the two reasons, in UTF-8.
abbrev pub exhausted : List ℕ
exhausted =
    230 ∷ 138 ∷ 149 ∷ 233 ∷ 128 ∷ 146 ∷ 230 ∷ 172 ∷ 161 ∷ 230 ∷ 149 ∷ 176 ∷ 232 ∷ 128 ∷ 151 ∷ 229
    ∷ 176 ∷ 189 ∷ 239 ∷ 188 ∷ 136 ∷ 230 ∷ 156 ∷ 170 ∷ 229 ∷ 156 ∷ 168 ∷ 228 ∷ 184 ∷ 141 ∷ 229 ∷ 143
    ∷ 175 ∷ 232 ∷ 167 ∷ 129 ∷ 230 ∷ 156 ∷ 159 ∷ 229 ∷ 134 ∷ 133 ∷ 32 ∷ 97 ∷ 99 ∷ 107 ∷ 239 ∷ 188
    ∷ 137 ∷ []

abbrev pub by_client : List ℕ
by_client =
    229 ∷ 174 ∷ 162 ∷ 230 ∷ 136 ∷ 183 ∷ 231 ∷ 171 ∷ 175 ∷ 230 ∷ 152 ∷ 190 ∷ 229 ∷ 188 ∷ 143 ∷ 232
    ∷ 189 ∷ 172 ∷ 229 ∷ 133 ∷ 165 ∷ 230 ∷ 173 ∷ 187 ∷ 228 ∷ 191 ∷ 161 ∷ []

-- The message that moveToDLQ writes: the source's identity, body, tag and keys, its properties with
-- the origin and the reason, and no message group.
unfoldable pub dead_letter : Context → ℕ → Message → ℕ → List ℕ → Message
dead_letter c offset m attempts reason = record {
  id = m.id;
  topic = dlq_topic_name c.group;
  queue_id = 0;
  offset = 0;
  tag = m.tag;
  keys = m.keys;
  message_group = [];
  properties = set_prop (codes "sq-dlq-reason") reason (
      set_prop (codes "sq-dlq-attempts") (format_uint attempts) (
        set_prop (codes "sq-origin-offset") (format_uint offset) (
          set_prop (codes "sq-origin-queue") (format_uint c.queue_id)
            (set_prop (codes "sq-origin-topic") c.topic m.properties))));
  body = m.body;
  body_encoding = [];
  body_digest = none;
  born_at_ms = m.born_at_ms;
  born_host = [];
  store_at_ms = 0;
  deliver_at_ms = 0;
  trace_context = [];
  transactional = false;
  delivery_attempt = 0;
}

-- moveToDLQ: the state it leaves, and whether it succeeds. CreateTopic checks the topic's name
-- first. Where the delete fails the dead letter stays written.
unfoldable pub move_to_dlq : Context → Queue → ℕ → Message → ℕ → List ℕ → Queue × Bool
move_to_dlq c q offset m attempts reason =
    let written = record q {
      dead_letters = q.dead_letters ++ (dead_letter c offset m attempts reason ∷ []);
    } in
    if validate_name (dlq_topic_name c.group)
    then elim (c.dead_letter_fate offset) [
      | append_fails ↦ (q, false)
      | delete_fails ↦ (written, false)
      | delete_unsynced ↦ (record written { inflight = delete offset q.inflight }, false)
      | moved ↦ (record written { inflight = delete offset q.inflight }, true)
    ]
    else (q, false)
