-- ===== src/Message/Tests.antt =====
-- One message through both stored forms, with a JSON codec that knows that message alone.
use sq.Common.{
  ℕ, ◌≡◌, refl, arith, true, false, List, [], ◌∷◌, ◌++◌, some, none, codes, length, bytes_eq,
  if◌then◌else◌,
}
use mathlib.Core.Logic.{ite, if_pos, if_neg}
use native.Mathlib.Decide.{ℕ_discrete}
use sq.Store.Bytes.{put_u32, big_endian, IsU32}
use sq.Message.{Message, BodyDigest, stored, without_body}
use sq.Message.Encoding.{Json, encode_message, encode_message_v1, decode_message, set_encoding}
use sq.Message.Plain.{IsPlain, is_utf8_from, lead}
use sq.Message.RoundTrip.{JsonLaws, decode_message-encode_message}

abbrev sample : Message
sample = record {
  id = codes "A1";
  topic = codes "orders";
  queue_id = 2;
  offset = 7;
  tag = codes "paid";
  keys = codes "k1" ∷ [];
  message_group = [];
  properties = [];
  body = codes "hello";
  body_encoding = [];
  body_digest = none;
  born_at_ms = 1000;
  born_host = [];
  store_at_ms = 1001;
  deliver_at_ms = 0;
  trace_context = [];
  transactional = true;
  delivery_attempt = 3;
}

BodyDigest-discrete : Discrete BodyDigest
BodyDigest-discrete = hlevel ℕ_discrete

Message-discrete : Discrete Message
Message-discrete = hlevel (ℕ_discrete, BodyDigest-discrete)

abbrev whole_text : List ℕ
whole_text = codes "{whole}"

abbrev meta_text : List ℕ
meta_text = codes "{meta}"

sample_json : Json
sample_json = record {
  marshal = λ m. ite (Message-discrete m sample) (some whole_text) none;
  marshal_meta = λ m. ite (Message-discrete m sample) (some meta_text) none;
  unmarshal = λ b.
      if bytes_eq b whole_text
      then some (stored sample)
      else if bytes_eq b meta_text
      then some (without_body (stored sample))
      else none;
}

only_sample :
    (m : Message) (t : List ℕ) {b : List ℕ}
    → ite (Message-discrete m sample) (some t) none ≡ some b
    → (m ≡ sample) × (b ≡ t)
only_sample m t h = elim (Message-discrete m sample) [
  | yes e ↦ (e, cc (rw (if_pos _ e) at h))
  | no n ↦ cc (rw (if_neg _ n) at h)
]

reads_meta : sample_json.unmarshal meta_text ≡ some (without_body (stored sample))
unfolding sample_json bytes_eq
reads_meta = refl

only_meta :
    (m : Message) {b : List ℕ}
    → sample_json.marshal_meta m ≡ some b
    → (m ≡ sample) × (b ≡ meta_text)
unfolding sample_json
only_meta m h = only_sample m meta_text h

sample_laws : JsonLaws sample_json
sample_laws = record {
  unmarshal_meta = λ m plain h. let (e, f) = only_meta m h in rw (e, f) (reads_meta);
}

sample-IsPlain : IsPlain sample
unfolding is_utf8_from lead
sample-IsPlain = record {
  texts = (refl, (refl, (refl, (refl, (refl, (refl, (refl, tt)))))));
  keys = (refl, tt);
  entries = tt;
  sorted = tt;
  digest = tt;
  bytes = (omega arith, (omega arith, (omega arith, (omega arith, (omega arith, tt)))));
  queue = omega arith;
  offset = omega arith;
  times = (omega arith, (omega arith, (omega arith, tt)));
}

-- An overlong form, a surrogate, and a cut character are no UTF-8; the Euro sign is.
utf8_runs :
    (is_utf8_from 0 0 0 (0xc0 ∷ 0x80 ∷ []) ≡ false)
    × (is_utf8_from 0 0 0 (0xed ∷ 0xa0 ∷ 0x80 ∷ []) ≡ false)
    × (is_utf8_from 0 0 0 (0xe2 ∷ 0x82 ∷ []) ≡ false)
    × (is_utf8_from 0 0 0 (0xe2 ∷ 0x82 ∷ 0xac ∷ []) ≡ true)
unfolding is_utf8_from lead
utf8_runs = (refl, refl, refl, refl)

sample_meta : sample_json.marshal_meta sample ≡ some meta_text
unfolding sample_json
sample_meta = rw (if_pos (Message-discrete sample sample) refl)

abbrev sample_frame : List ℕ
sample_frame = (1 ∷ 0 ∷ 0 ∷ 0 ∷ 6 ∷ []) ++ (meta_text ++ codes "hello")

encodes_v1 : encode_message_v1 sample_json sample ≡ some sample_frame
unfolding encode_message_v1 put_u32 big_endian
encodes_v1 = rw sample_meta refl

sample_small : (meta : List ℕ) → sample_json.marshal_meta sample ≡ some meta → IsU32 (length meta)
unfolding sample_json
sample_small meta h = rw (only_meta sample h).1 (omega arith)

unknown_encoding : set_encoding (codes "xml") ≡ none
unfolding set_encoding bytes_eq
unknown_encoding = refl

decode_message-encode_message_example :
    decode_message sample_json sample_frame ≡ some (stored sample)
decode_message-encode_message_example =
    decode_message-encode_message sample_json sample_laws sample sample_frame sample-IsPlain
      sample_small encodes
  where
    encodes : encode_message sample_json true sample ≡ some sample_frame
    encodes = unfold encode_message in encodes_v1
