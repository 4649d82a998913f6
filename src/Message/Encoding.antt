-- ===== src/Message/Encoding.antt =====
-- internal/core/encoding.go: the two stored forms of a message, JSON as a whole, and version 1, in
-- which the body follows the JSON of the other fields as raw bytes.
use sq.Common.{
  ℕ, ◌+◌, ◌%◌, ◌^◌, Bool, true, false, List, [], ◌∷◌, ◌++◌, Option, none, some, length, take, drop,
  ltb, ◌==◌, ◌>>=◌, if◌then◌else◌, codes, bytes_eq,
}
use sq.Store.Bytes.{put_u32, uint32}
use sq.Message.{Message}

abbrev pub msg_version_v1 : ℕ
msg_version_v1 = 0x01

abbrev pub msg_v1_header_len : ℕ
msg_v1_header_len = 5

abbrev pub json_object_start : ℕ
json_object_start = b'{'

-- The `encoding/json` codec of the Message struct. `none` is an error.
pub record Json : Type 0 where
  -- json.Marshal(m).
  pub marshal : Message → Option (List ℕ)
  -- json.Marshal(&msgMeta{Message: m}): an empty body shadows the message's.
  pub marshal_meta : Message → Option (List ℕ)
  -- json.Unmarshal into a new Message.
  pub unmarshal : List ℕ → Option Message

-- SetEncoding: `some` is the new value of `binaryEncoding`, and `none` the error.
unfoldable pub set_encoding : List ℕ → Option Bool
set_encoding enc =
    if bytes_eq enc (codes "json")
    then some false
    else if bytes_eq enc (codes "binary")
    then some true
    else none

module _ (json : Json) where
  -- `uint32(len(meta))` keeps the low 32 bits.
  unfoldable pub encode_message_v1 : Message → Option (List ℕ)
  encode_message_v1 m = do
    meta ← json.marshal_meta m
    some (msg_version_v1 ∷ (put_u32 (length meta % 2 ^ 32) ++ (meta ++ m.body)))

  unfoldable pub encode_message : Bool → Message → Option (List ℕ)
  encode_message true m = encode_message_v1 m
  encode_message false m = json.marshal m

  -- The body is what follows the metadata, whatever body the metadata held.
  unfoldable pub decode_message_v1 : List ℕ → Option Message
  decode_message_v1 b =
      let meta_len = uint32 (take 4 (drop 1 b)) in
      if ltb (length b) msg_v1_header_len
      then none
      else if ltb (length b) (msg_v1_header_len + meta_len)
      then none
      else (json.unmarshal (take meta_len (drop msg_v1_header_len b)) >>= λ m.
          some (record m { body = drop (msg_v1_header_len + meta_len) b }))

  unfoldable pub decode_message : List ℕ → Option Message
  decode_message [] = none
  decode_message (b ∷ bs) =
      if b == msg_version_v1
      then decode_message_v1 (b ∷ bs)
      else if b == json_object_start
      then json.unmarshal (b ∷ bs)
      else none
