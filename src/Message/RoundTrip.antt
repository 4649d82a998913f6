-- ===== src/Message/RoundTrip.antt =====
-- A message that is encoded as a frame of version 1 decodes to the same message.
use sq.Common.{
  ℕ, ◌+◌, ◌%◌, ◌^◌, ◌≤◌, ◌<◌, ◌≡◌, refl, ap, sym, subst, ◌∙◌, arith, true, inl, inr, Bool-cases,
  Option-cases, List, ◌∷◌, ◌++◌, none, some, length, take, drop, zero, suc, take-take,
  length-append, take-append_length, drop-append_length, ltb, drop-drop, length-take,
}
use sq.Store.Bytes.{IsU32, put_u32, uint32}
use sq.Store.Keys.Fields.{length-put_u32, uint32-put_u32}
use sq.Message.{Message, stored, without_body}
use sq.Message.Plain.{IsPlain}
use sq.Message.Encoding.{
  Json, encode_message, encode_message_v1, decode_message, decode_message_v1, msg_version_v1,
}

-- What the code relies on of `encoding/json`: the metadata of a message whose strings are valid
-- UTF-8 is read back with the fields that have a key, of which "body" is none.
pub record JsonLaws (json : Json) : Type 0 where
  pub unmarshal_meta :
      (m : Message) {b : List ℕ}
      → IsPlain m
      → json.marshal_meta m ≡ some b
      → json.unmarshal b ≡ some (without_body (stored m))

-- The parts of a version 1 frame, found again by their positions.
frame_parts :
    (meta body : List ℕ)
    → IsU32 (length meta)
    → (let b = msg_version_v1 ∷ (put_u32 (length meta) ++ (meta ++ body)) in
        (uint32 (take 4 (drop 1 b)) ≡ length meta)
        × (take (length meta) (drop 5 b) ≡ meta)
        × (drop (5 + length meta) b ≡ body)
        × (length b ≡ 5 + length meta + length body))
frame_parts meta body h =
    let n = length meta in
    let four : 4 ≡ length (put_u32 n) = sym (length-put_u32 n) in
    let behind : drop 4 (put_u32 n ++ (meta ++ body)) ≡ meta ++ body =
      drop-append_length (put_u32 n) (meta ++ body) 4 four in
    (
      ap uint32 (take-append_length (put_u32 n) (meta ++ body) 4 four) ∙ uint32-put_u32 n h,
      ap (take n) behind ∙ take-append_length meta body n refl,
      ap (λ (k : ℕ). drop k (msg_version_v1 ∷ (put_u32 n ++ (meta ++ body)))) {x = 5 + n}
            {y = suc (4 + n)} (omega arith)
          ∙ sym (drop-drop n 4 (put_u32 n ++ (meta ++ body)))
          ∙ ap (drop n) behind
          ∙ drop-append_length meta body n refl,
      omega (
        arith,
        length-append (put_u32 n) (meta ++ body),
        length-append meta body,
        length-put_u32 n,
      ),
    )

abbrev frame : List ℕ → List ℕ → List ℕ
frame meta body = msg_version_v1 ∷ (put_u32 (length meta) ++ (meta ++ body))

encode_message_v1-frame :
    (json : Json) (m : Message) (meta b : List ℕ)
    → json.marshal_meta m ≡ some meta
    → IsU32 (length meta)
    → encode_message_v1 json m ≡ some b
    → frame meta m.body ≡ b
unfolding encode_message_v1
encode_message_v1-frame json m meta b f fits e =
    let low : length meta % 2 ^ 32 ≡ length meta = omega arith in cc (rw (f, low) at e)

module _ (json : Json) (laws : JsonLaws json) where
  decode-frame :
      (m : Message) (meta : List ℕ)
      → IsPlain m
      → json.marshal_meta m ≡ some meta
      → IsU32 (length meta)
      → decode_message_v1 json (msg_version_v1 ∷ (put_u32 (length meta) ++ (meta ++ m.body)))
        ≡ some (stored m)
  unfolding decode_message_v1 stored without_body
  decode-frame m meta plain e h =
      let (field, inner, rest, len) = frame_parts meta m.body h in
      rw (field, inner, laws.unmarshal_meta m plain e, rest) (ground (arith, len))

  -- In the binary form, a message of valid strings, its properties in the order of their keys and
  -- its metadata below 2 ^ 32 bytes, decodes to itself, less the two fields that are not stored: the
  -- body byte for byte, from its place behind the metadata.
  pub decode_message-encode_message :
      (m : Message) (b : List ℕ)
      → IsPlain m
      → ((meta : List ℕ) → json.marshal_meta m ≡ some meta → IsU32 (length meta))
      → encode_message json true m ≡ some b
      → decode_message json b ≡ some (stored m)
  unfolding encode_message encode_message_v1 decode_message
  decode_message-encode_message m b plain small e = elim (Option-cases (json.marshal_meta m)) [
    | inl f ↦ cc (rw f at e)
    | inr (meta, f) ↦
        let fits = small meta f in
        subst (λ (k : List ℕ). decode_message json k ≡ some (stored m))
          (encode_message_v1-frame json m meta b f fits e) (decode-frame m meta plain f fits)
  ]

-- A frame that is cut inside its header or its metadata.
decode-cut_frame :
    (json : Json) (meta body : List ℕ) (n : ℕ)
    → IsU32 (length meta)
    → n < 5 + length meta
    → decode_message_v1 json (take n (frame meta body)) ≡ none
unfolding decode_message_v1
decode-cut_frame json meta body zero fits h = refl
decode-cut_frame json meta body (suc n) fits h =
    let rest = put_u32 (length meta) ++ (meta ++ body) in
    let short : length (take n rest) ≤ n = omega (arith, length-take n rest) in
    elim (Bool-cases (ltb (suc (length (take n rest))) 5)) [
      | inl e ↦ rw e
      | inr e ↦
          let enough : 4 ≤ n = ground arith in
          rw (take-take 4 n rest enough, (frame_parts meta body fits).0) (ground (arith, e))
    ]

-- A frame of version 1 cut anywhere before the end of its metadata is refused, however the JSON
-- decoder would read what is left of the metadata.
pub decode_message_v1-cut :
    (json : Json) (m : Message) (meta b : List ℕ) (n : ℕ)
    → json.marshal_meta m ≡ some meta
    → IsU32 (length meta)
    → encode_message_v1 json m ≡ some b
    → n < 5 + length meta
    → decode_message_v1 json (take n b) ≡ none
decode_message_v1-cut json m meta b n f fits e h =
    subst (λ (k : List ℕ). decode_message_v1 json (take n k) ≡ none)
      (encode_message_v1-frame json m meta b f fits e) (decode-cut_frame json meta m.body n fits h)
