-- ===== src/Seglog/Frame.antt =====
-- The frames of internal/cluster/seglog/frame.go. The checksum, crc32.Update with the Castagnoli
-- table, is a parameter.
use sq.Common.{
  ℕ, zero, suc, ◌+◌, ◌-◌, ◌%◌, ◌^◌, ◌<◌, ◌≡◌, Bool, true, false, ◌||◌, List, [], ◌∷◌, ◌++◌, Option,
  none, some, length, take, drop, ltb, ◌==◌, if◌then◌else◌, ◌>>=◌,
}
use sq.Store.Bytes.{put_u32, uint32}

-- frameHeaderLen, maxFrameLen and the two types of records.
abbrev pub frame_header_len : ℕ
frame_header_len = 8

abbrev pub max_frame_len : ℕ
max_frame_len = 67108864

abbrev pub rec_entry : ℕ
rec_entry = 1

abbrev pub rec_hard_state : ℕ
rec_hard_state = 2

-- crc32.Update continues a checksum, and crc32.Checksum starts from 0; its values have 32 bits.
pub record UpdateLaws (update : ℕ → List ℕ → ℕ) : Type 0 where
  pub update-append : (c : ℕ) (xs ys : List ℕ) → update c (xs ++ ys) ≡ update (update c xs) ys
  pub update-lt : (c : ℕ) (xs : List ℕ) → update c xs < 2 ^ 32

-- A frame that was read: the type, the payload, and how many bytes it took.
pub record Frame : Type 0 where
  pub typ : ℕ
  pub payload : List ℕ
  pub size : ℕ

unfoldable pub zeros : ℕ → List ℕ
zeros zero = []
zeros (suc n) = 0 ∷ zeros n

-- copy(out[i:], bs)
unfoldable pub patch : ℕ → List ℕ → List ℕ → List ℕ
patch i bs out = take i out ++ bs ++ drop (i + length bs) out

module _ (update : ℕ → List ℕ → ℕ) where
  -- appendFrame.
  unfoldable pub append_frame : List ℕ → ℕ → List ℕ → List ℕ
  append_frame dst typ payload =
      let hdr =
        put_u32 ((1 + length payload) % 2 ^ 32) ++ put_u32 (update (update 0 (typ ∷ [])) payload) in
      ((dst ++ hdr) ++ (typ ∷ [])) ++ payload

  -- appendFrameMarshal: `marshalled` is what MarshalAppend writes after dst, `none` its error.
  unfoldable pub append_frame_marshal : List ℕ → ℕ → Option (List ℕ) → Option (List ℕ)
  append_frame_marshal dst typ marshalled =
      let base = length dst in
      let reserved = dst ++ (zeros frame_header_len ++ (typ ∷ [])) in
      marshalled >>= λ payload.
      let out = reserved ++ payload in
      let payload_len = length out - base - frame_header_len - 1 in
      let sized = patch base (put_u32 ((1 + payload_len) % 2 ^ 32)) out in
      some (patch (base + 4) (put_u32 (update 0 (drop (base + frame_header_len) sized))) sized)

  -- readFrame: `none` is errTornFrame.
  unfoldable pub read_body : ℕ → List ℕ → List ℕ → Option Frame
  read_body ln sum [] = none
  read_body ln sum (typ ∷ payload) =
      if update 0 (typ ∷ payload) == uint32 sum
      then some (record { typ = typ; payload = payload; size = frame_header_len + ln })
      else none

  unfoldable pub read_frame : List ℕ → Option Frame
  read_frame buf =
      let ln = uint32 (take 4 buf) in
      if ltb (length buf) frame_header_len
      then none
      else if ln == 0 || ltb max_frame_len ln || ltb (length buf - frame_header_len) ln
      then none
      else read_body ln (take 4 (drop 4 buf)) (take ln (drop frame_header_len buf))

-- Whether a slice is all zeros, allZero.
unfoldable pub all_zero : List ℕ → Bool
all_zero [] = true
all_zero (b ∷ bs) = if b == 0 then all_zero bs else false
