-- ===== src/Message.antt =====
-- internal/core: the broker's message (types.go) and its stored form (encoding.go).
pub mod Encoding
pub mod Plain
pub mod RoundTrip
mod Tests
use sq.Common.{ℕ, Bool, false, List, [], Option}

pub record BodyDigest : Type 0 where
  pub digest_type : List ℕ
  pub checksum : List ℕ

-- Strings and the body are byte lists, and the properties are the map's entries. `int64` times are
-- numbers. `transactional` and `delivery_attempt` have the JSON tag "-".
pub record Message : Type 0 where
  pub id : List ℕ
  pub topic : List ℕ
  pub queue_id : ℕ
  pub offset : ℕ
  pub tag : List ℕ
  pub keys : List (List ℕ)
  pub message_group : List ℕ
  pub properties : List (List ℕ × List ℕ)
  pub body : List ℕ
  pub body_encoding : List ℕ
  pub body_digest : Option BodyDigest
  pub born_at_ms : ℕ
  pub born_host : List ℕ
  pub store_at_ms : ℕ
  pub deliver_at_ms : ℕ
  pub trace_context : List ℕ
  pub transactional : Bool
  pub delivery_attempt : ℕ

-- The message without the fields that are not stored.
unfoldable pub stored : Message → Message
stored m = record m { transactional = false; delivery_attempt = 0 }

-- The message as the reader finds it before the body is put back.
unfoldable pub without_body : Message → Message
without_body m = record m { body = [] }
