-- ===== src/Message/Plain.antt =====
-- The messages of internal/core/types.go that encoding/json reads back as they are: it keeps
-- strings of valid UTF-8 only (any other byte is replaced), and writes the entries of a map in the
-- order of their keys.
use sq.Common.{
  ℕ, zero, suc, ◌<◌, ◌≡◌, ◌^◌, Bool, true, false, ◌&&◌, List, [], ◌∷◌, Option, none, some, ltb, leb,
  ◌==◌, if◌then◌else◌, All,
}
use sq.Store.Bytes.{IsU32, IsU64}
use sq.Store.Order.{lex_lt}
use sq.Message.{BodyDigest, Message}

-- What the first byte of a character says: how many bytes follow, and the bounds of the next one.
unfoldable pub lead : ℕ → Option (ℕ × ℕ × ℕ)
lead b =
    if ltb b 0x80
    then some (0, 0x80, 0xbf)
    else if leb 0xc2 b && leb b 0xdf
    then some (1, 0x80, 0xbf)
    else if b == 0xe0
    then some (2, 0xa0, 0xbf)
    else if b == 0xed
    then some (2, 0x80, 0x9f)
    else if leb 0xe1 b && leb b 0xef
    then some (2, 0x80, 0xbf)
    else if b == 0xf0
    then some (3, 0x90, 0xbf)
    else if leb 0xf1 b && leb b 0xf3
    then some (3, 0x80, 0xbf)
    else if b == 0xf4
    then some (3, 0x80, 0x8f)
    else none

-- utf8.Valid, inside a character of which k bytes are to come.
unfoldable pub is_utf8_from : ℕ → ℕ → ℕ → List ℕ → Bool
is_utf8_from zero lo hi [] = true
is_utf8_from (suc k) lo hi [] = false
is_utf8_from (suc k) lo hi (b ∷ s) = leb lo b && leb b hi && is_utf8_from k 0x80 0xbf s
is_utf8_from zero lo hi (b ∷ s) = elim (lead b) [
  | none ↦ false
  | some (k, low, high) ↦ is_utf8_from k low high s
]

abbrev pub IsUtf8 : List ℕ → Type 0
IsUtf8 s = is_utf8_from 0 0 0 s ≡ true

-- Each key once, in the order of the bytes.
abbrev pub IsSorted : List (List ℕ × List ℕ) → Type 0
IsSorted [] = Unit {0}
IsSorted ((k, v) ∷ t) = All (λ (e : List ℕ × List ℕ). lex_lt k e.0 ≡ true) t × IsSorted t

abbrev pub IsPlainDigest : Option BodyDigest → Type 0
IsPlainDigest none = Unit {0}
IsPlainDigest (some d) = IsUtf8 d.digest_type × IsUtf8 d.checksum

pub record IsPlain (m : Message) : Type 0 where
  pub texts : All IsUtf8 (
      m.id ∷ m.topic ∷ m.tag ∷ m.message_group ∷ m.body_encoding ∷ m.born_host ∷ m.trace_context
      ∷ [])
  pub keys : All IsUtf8 m.keys
  pub entries : All (λ (e : List ℕ × List ℕ). IsUtf8 e.0 × IsUtf8 e.1) m.properties
  pub sorted : IsSorted m.properties
  pub digest : IsPlainDigest m.body_digest
  pub bytes : All (λ b. b < 256) m.body
  pub queue : IsU32 m.queue_id
  pub offset : IsU64 m.offset
  pub times : All (λ t. t < 2 ^ 63) (m.born_at_ms ∷ m.store_at_ms ∷ m.deliver_at_ms ∷ [])
