-- ===== src/Store/Keys/Scan.antt =====
-- The scans of internal/store/keys.go are apart: a range shows the keys of its own queue or group
-- and no others.
use sq.Common.{
  ℕ, ◌-◌, ◌≡◌, ◌↔◌, refl, ap, sym, ◌∙◌, arith, true, List, [], ◌∷◌, ◌++◌, append_assoc, length,
  length-append, take, take-append_length, ==_refl,
}
use sq.Store.Bytes.{IsBytes, IsU32, put_u64, put_u32}
use sq.Store.Order.{has_prefix, in_range, has_prefix-append}
use sq.Store.Bytes.{uint32}
use sq.Store.Keys.Fields.{length-put_u64, length-put_u32, uint32-put_u32}
use sq.Store.Keys
use sq.Store.Keys.Range.{in_range-prefix_upper_bound}
use sq.Store.Keys.{slash, IsName}

has_prefix-append_both : (p a b : List ℕ) → has_prefix (p ++ a) (p ++ b) ≡ has_prefix a b
unfolding has_prefix
has_prefix-append_both [] a b = refl
has_prefix-append_both (x ∷ p) a b = rw (==_refl x) (has_prefix-append_both p a b)

-- Two names that stand before a '/' are equal if one key with them is a prefix of the other.
has_prefix-name :
    (n m x y : List ℕ)
    → IsName n
    → IsName m
    → has_prefix (n ++ (slash ∷ x)) (m ++ (slash ∷ y)) ≡ true
    → (n ≡ m) × (has_prefix x y ≡ true)
unfolding has_prefix
has_prefix-name [] [] x y hn hm h = (refl, ground arith)
has_prefix-name [] (d ∷ m) x y hn hm h = absurd (ground arith)
has_prefix-name (c ∷ n) [] x y hn hm h = absurd (ground arith)
has_prefix-name (c ∷ n) (d ∷ m) x y (hc, hn) (hd, hm) h =
    ground (arith, has_prefix-name n m x y hn hm)

-- Fixed-width fields: a prefix of the same width is equal.
has_prefix-same : (a b r : List ℕ) → length a ≡ length b → has_prefix (a ++ r) b ≡ true → a ≡ b
unfolding has_prefix
has_prefix-same [] [] r e h = refl
has_prefix-same [] (y ∷ b) r e h = absurd (omega arith)
has_prefix-same (x ∷ a) [] r e h = absurd (omega arith)
has_prefix-same (x ∷ a) (y ∷ b) r e h = ground (arith, has_prefix-same a b r (omega arith))

put_u32-injective : (a b : ℕ) → IsU32 a → IsU32 b → put_u32 a ≡ put_u32 b → a ≡ b
put_u32-injective a b ha hb e = sym (uint32-put_u32 a ha) ∙ ap uint32 e ∙ uint32-put_u32 b hb

-- `k[:len(k)-8]` takes the offset off.
msg_queue_prefix_lem :
    (topic : List ℕ) (q : ℕ)
    → Keys.msg_queue_prefix topic q ≡ Keys.msg_prefix ++ (topic ++ (slash ∷ put_u32 q))
unfolding Keys.msg_queue_prefix Keys.msg_key
msg_queue_prefix_lem topic q =
    let front = Keys.msg_prefix ++ (topic ++ (slash ∷ put_u32 q)) in
    let split : front ++ put_u64 0 ≡ Keys.msg_key topic q 0 =
      ap (λ (l : List ℕ). Keys.msg_prefix ++ l)
        (append_assoc topic (slash ∷ put_u32 q) (put_u64 0)) in
    ap (λ (k : List ℕ). take (length k - 8) k) (sym split)
    ∙ take-append_length front (put_u64 0) _
        (omega (arith, length-append front (put_u64 0), length-put_u64 0))

-- A message key lies in a queue's scan exactly when it is a key of that topic and queue.
pub msg_key-queue_scan :
    (topic topic' : List ℕ) (q q' o : ℕ)
    → IsName topic
    → IsName topic'
    → IsU32 q
    → IsU32 q'
    → (has_prefix (Keys.msg_key topic q o) (Keys.msg_queue_prefix topic' q') ≡ true)
      ↔ ((topic ≡ topic') × (q ≡ q'))
unfolding Keys.msg_key
msg_key-queue_scan topic topic' q q' o ht ht' hq hq' =
    rw
      (
        msg_queue_prefix_lem topic' q',
        has_prefix-append_both Keys.msg_prefix (topic ++ (slash ∷ (put_u32 q ++ put_u64 o)))
            (topic' ++ (slash ∷ put_u32 q')),
      )
      (there, back)
  where
    there :
        has_prefix (topic ++ (slash ∷ (put_u32 q ++ put_u64 o))) (topic' ++ (slash ∷ put_u32 q'))
          ≡ true
        → (topic ≡ topic') × (q ≡ q')
    there h =
        let (name, rest) = has_prefix-name topic topic' _ _ ht ht' h in
        let width : length (put_u32 q) ≡ length (put_u32 q') =
          omega (arith, length-put_u32 q, length-put_u32 q') in
        (name, put_u32-injective q q' hq hq' (has_prefix-same _ _ _ width rest))

    back :
        (topic ≡ topic') × (q ≡ q')
        → has_prefix (topic ++ (slash ∷ (put_u32 q ++ put_u64 o))) (topic' ++ (slash ∷ put_u32 q'))
          ≡ true
    back (et, eq) =
        rw (et, eq, ← append_assoc topic' (slash ∷ put_u32 q') (put_u64 o))
          (has_prefix-append (topic' ++ (slash ∷ put_u32 q')) (put_u64 o))

-- A cursor key has the prefix of a group's scan exactly when it is a key of that group, the groups'
-- names without '/': "g1" does not show the cursors of "g10".
pub cursor_key-group_scan :
    (group group' topic : List ℕ) (q : ℕ)
    → IsName group
    → IsName group'
    → (has_prefix (Keys.cursor_key group topic q) (Keys.cursor_group_prefix group') ≡ true)
      ↔ (group ≡ group')
unfolding Keys.cursor_key Keys.cursor_group_prefix
cursor_key-group_scan group group' topic q hg hg' =
    let rest = topic ++ (slash ∷ put_u32 q) in
    rw
      (has_prefix-append_both Keys.cursor_prefix (group ++ (slash ∷ rest)) (group' ++ (slash ∷ [])))
      (
        λ h. (has_prefix-name group group' rest [] hg hg' h).0,
        λ e.
            rw (e, ← append_assoc group' (slash ∷ []) rest)
              (has_prefix-append (group' ++ (slash ∷ [])) rest),
      )

-- The scan from a queue's prefix to its upper bound shows a message key of bytes exactly when it is
-- a key of that topic and queue, the topics without '/' and the queues of 32 bits.
pub in_range-msg_queue :
    (topic topic' : List ℕ) (q q' o : ℕ)
    → IsName topic
    → IsName topic'
    → IsU32 q
    → IsU32 q'
    → IsBytes (Keys.msg_key topic q o)
    → (in_range
          (Keys.msg_queue_prefix topic' q')
          (Keys.prefix_upper_bound (Keys.msg_queue_prefix topic' q'))
          (Keys.msg_key topic q o)
        ≡ true)
      ↔ ((topic ≡ topic') × (q ≡ q'))
in_range-msg_queue topic topic' q q' o ht ht' hq hq' hb =
    rw (in_range-prefix_upper_bound (Keys.msg_queue_prefix topic' q') (Keys.msg_key topic q o) hb)
      (msg_key-queue_scan topic topic' q q' o ht ht' hq hq')
