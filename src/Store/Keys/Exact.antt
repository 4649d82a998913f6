-- ===== src/Store/Keys/Exact.antt =====
-- The parsers of internal/store/keys.go accept only keys that the builders write: a key that
-- parses is the key of what it parses to.
use sq.Common.{ℕ, ◌≡◌, subst, arith, inl, inr, List, ◌∷◌, some, All-append_right, Option-cases}
use sq.Store.Bytes.{IsByte, IsBytes}
use sq.Store.Keys
use sq.Store.Keys.{slash, IsName, cut_prefix, cut_name, cut_tail}
use sq.Store.Keys.Fields.{
  put_u32-uint32, coords_exact, tail20_exact, cut_prefix_sound, cut_name_sound, cut_tail_sound,
}

-- The bytes behind a cut prefix, and behind a name.
rest-IsBytes :
    (k p : List ℕ) {rest : List ℕ} → IsBytes k → cut_prefix k p ≡ some rest → IsBytes rest
rest-IsBytes k p {rest} h e =
    All-append_right IsByte p rest (subst IsBytes (cut_prefix_sound k p e) h)

bin-IsBytes :
    (rest : List ℕ) {name bin : List ℕ}
    → IsBytes rest
    → cut_name rest ≡ some (name, bin)
    → IsBytes bin
bin-IsBytes rest {name} {bin} h e =
    (All-append_right IsByte name (slash ∷ bin)
      (subst IsBytes (cut_name_sound rest name bin e).0 h)).1

tail-IsBytes :
    (rest : List ℕ) {front bin : List ℕ}
    → IsBytes rest
    → cut_tail rest ≡ some (front, bin)
    → IsBytes bin
tail-IsBytes rest {front} {bin} h e =
    (All-append_right IsByte front (slash ∷ bin)
      (subst IsBytes (cut_tail_sound rest front bin e).0 h)).1

-- Bytes that parse as a message key are the key of the parts that the parser gives, and the topic
-- holds no '/'.
pub parse_msg_key_exact :
    (k topic : List ℕ) (q o : ℕ)
    → IsBytes k
    → Keys.parse_msg_key k ≡ some (topic, q, o)
    → (Keys.msg_key topic q o ≡ k) × IsName topic
unfolding Keys.parse_msg_key Keys.msg_key
parse_msg_key_exact k topic q o hb h = elim (Option-cases (cut_prefix k Keys.msg_prefix)) [
  | inl e ↦ cc (rw e at h)
  | inr (rest, e) ↦ elim (Option-cases (cut_name rest)) [
    | inl e' ↦ cc (rw (e, e') at h)
    | inr ((t, bin), e') ↦ ground (
      arith,
      rw (e, e') at h,
      cut_prefix_sound k Keys.msg_prefix e,
      cut_name_sound rest t bin e',
      coords_exact bin (bin-IsBytes rest (rest-IsBytes k Keys.msg_prefix hb e) e'),
    )
  ]
]

-- What parses as an inflight key is the key of the parts that the parser gives.
pub parse_inflight_key_exact :
    (k group topic : List ℕ) (q o : ℕ)
    → IsBytes k
    → Keys.parse_inflight_key k ≡ some (group, topic, q, o)
    → (Keys.inflight_key group topic q o ≡ k) × IsName group × IsName topic
unfolding Keys.parse_inflight_key Keys.inflight_key
parse_inflight_key_exact k group topic q o hb h =
    elim (Option-cases (cut_prefix k Keys.inflight_prefix_name)) [
      | inl e ↦ cc (rw e at h)
      | inr (rest, e) ↦ elim (Option-cases (cut_name rest)) [
        | inl e' ↦ cc (rw (e, e') at h)
        | inr ((g, rest'), e') ↦ elim (Option-cases (cut_name rest')) [
          | inl e'' ↦ cc (rw (e, e', e'') at h)
          | inr ((t, bin), e'') ↦
              let front = rest-IsBytes k Keys.inflight_prefix_name hb e in
              ground (
                arith,
                rw (e, e', e'') at h,
                cut_prefix_sound k Keys.inflight_prefix_name e,
                cut_name_sound rest g rest' e',
                cut_name_sound rest' t bin e'',
                coords_exact bin (bin-IsBytes rest' (bin-IsBytes rest front e') e''),
              )
        ]
      ]
    ]

-- What parses as a cursor key is the key of the parts that the parser gives.
pub parse_cursor_key_exact :
    (k group topic : List ℕ) (q : ℕ)
    → IsBytes k
    → Keys.parse_cursor_key k ≡ some (group, topic, q)
    → (Keys.cursor_key group topic q ≡ k) × IsName group × IsName topic
unfolding Keys.parse_cursor_key Keys.cursor_key
parse_cursor_key_exact k group topic q hb h =
    elim (Option-cases (cut_prefix k Keys.cursor_prefix)) [
      | inl e ↦ cc (rw e at h)
      | inr (rest, e) ↦ elim (Option-cases (cut_name rest)) [
        | inl e' ↦ cc (rw (e, e') at h)
        | inr ((g, rest'), e') ↦ elim (Option-cases (cut_name rest')) [
          | inl e'' ↦ cc (rw (e, e', e'') at h)
          | inr ((t, bin), e'') ↦
              let front = rest-IsBytes k Keys.cursor_prefix hb e in
              ground (
                arith,
                rw (e, e', e'') at h,
                cut_prefix_sound k Keys.cursor_prefix e,
                cut_name_sound rest g rest' e',
                cut_name_sound rest' t bin e'',
                put_u32-uint32 bin (bin-IsBytes rest' (bin-IsBytes rest front e') e''),
              )
        ]
      ]
    ]

-- What parses as an index key is the key of the parts that the parser gives.
pub parse_key_idx_key_exact :
    (k topic key : List ℕ) (ms q o : ℕ)
    → IsBytes k
    → Keys.parse_key_idx_key k ≡ some (topic, key, ms, q, o)
    → (Keys.key_idx_key topic key ms q o ≡ k) × IsName topic
unfolding Keys.parse_key_idx_key Keys.key_idx_key
parse_key_idx_key_exact k topic key ms q o hb h =
    elim (Option-cases (cut_prefix k Keys.key_idx_prefix)) [
      | inl e ↦ cc (rw e at h)
      | inr (rest, e) ↦ elim (Option-cases (cut_name rest)) [
        | inl e' ↦ cc (rw (e, e') at h)
        | inr ((t, rest'), e') ↦ elim (Option-cases (cut_tail rest')) [
          | inl e'' ↦ cc (rw (e, e', e'') at h)
          | inr ((b, bin), e'') ↦
              let front = rest-IsBytes k Keys.key_idx_prefix hb e in
              ground (
                arith,
                rw (e, e', e'') at h,
                cut_prefix_sound k Keys.key_idx_prefix e,
                cut_name_sound rest t rest' e',
                cut_tail_sound rest' b bin e'',
                tail20_exact bin (tail-IsBytes rest' (bin-IsBytes rest front e') e''),
              )
        ]
      ]
    ]
