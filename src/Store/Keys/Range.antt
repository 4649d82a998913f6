-- ===== src/Store/Keys/Range.antt =====
-- What the scans of internal/store/keys.go see: the range from a prefix to its upper bound holds
-- the keys with that prefix, and integers in keys keep their order.
use sq.Common.{
  ℕ, ◌+◌, ◌<◌, ◌≡◌, refl, ap, ◌∙◌, arith, true, false, Bool-cases, inl, inr, List, [], ◌∷◌, ◌++◌,
  reverse, Option, none, some, ltb, leb, ◌==◌, ◌>>=◌, if◌then◌else◌,
}
use mathlib.Core.List.{reverse-cons, reverse-append}
use sq.Store.Bytes.{IsByte, IsBytes, IsU64, put_u64, put_u32}
use sq.Store.Order.{
  lex_lt, has_prefix, in_range, lex_lt-append_left, lex_lt-put_u64, lex_lt-put_u64_last,
  lex_lt-zero, lex_lt-prefix,
}
use sq.Store.Keys
use sq.Store.Keys.{slash, IsName, carry, prefix_upper_bound}

-- The bound by recursion from the first byte: the bound of the tail with the byte put in front,
-- or the byte raised by one where the tail has none.
extend : ℕ → Option (List ℕ) → Option (List ℕ)
extend b none = if ltb b 0xFF then some ((b + 1) ∷ []) else none
extend b (some u) = some (b ∷ u)

upper_bound : List ℕ → Option (List ℕ)
upper_bound [] = none
upper_bound (b ∷ bs) = extend b (upper_bound bs)

carry_last : ℕ → Option (List ℕ) → Option (List ℕ)
carry_last b none = if ltb b 0xFF then some ((b + 1) ∷ []) else none
carry_last b (some u) = some (u ++ (b ∷ []))

carry-append : (xs : List ℕ) (b : ℕ) → carry (xs ++ (b ∷ [])) ≡ carry_last b (carry xs)
unfolding carry carry_last
carry-append [] b = refl
carry-append (x ∷ xs) b = ground (arith, carry-append xs b)

reverse_last :
    (b : ℕ) (u : Option (List ℕ))
    → (carry_last b u >>= λ up. some (reverse up)) ≡ extend b (u >>= λ up. some (reverse up))
unfolding carry_last extend
reverse_last b none = ground arith
reverse_last b (some u) = rw (reverse-append u (b ∷ []))

prefix_upper_bound-upper_bound : (p : List ℕ) → prefix_upper_bound p ≡ upper_bound p
unfolding prefix_upper_bound upper_bound
prefix_upper_bound-upper_bound [] = unfold carry in refl
prefix_upper_bound-upper_bound (b ∷ bs) =
    rw (reverse-cons b bs, carry-append (reverse bs) b, reverse_last b (carry (reverse bs)))
      (ap (extend b) (prefix_upper_bound-upper_bound bs))

range_step :
    (b c : ℕ) (p k : List ℕ) (u : Option (List ℕ))
    → IsByte c
    → in_range p u k ≡ has_prefix k p
    → in_range (b ∷ p) (extend b u) (c ∷ k) ≡ has_prefix (c ∷ k) (b ∷ p)
unfolding extend in_range has_prefix lex_lt
range_step b c p k none hc ih = elim (Bool-cases (ltb b 0xFF)) [
  | inl e ↦ rw (e, extend) (ground (arith, e, ih, lex_lt-zero k))
  | inr e ↦ rw (e, extend) (ground (arith, e, ih, lex_lt-zero k))
]
range_step b c p k (some u) hc ih = ground arith

range_empty : (b : ℕ) (p : List ℕ) (u : Option (List ℕ)) → in_range (b ∷ p) (extend b u) [] ≡ false
unfolding extend in_range lex_lt
range_empty b p none = ground arith
range_empty b p (some u) = refl

range-has_prefix : (p k : List ℕ) → IsBytes k → in_range p (upper_bound p) k ≡ has_prefix k p
unfolding upper_bound has_prefix
range-has_prefix [] [] hk = unfold in_range has_prefix lex_lt in refl
range-has_prefix [] (c ∷ k) hk = unfold in_range has_prefix lex_lt in refl
range-has_prefix (b ∷ p) [] hk = range_empty b p (upper_bound p)
range-has_prefix (b ∷ p) (c ∷ k) (hc, hk) =
    range_step b c p k (upper_bound p) hc (range-has_prefix p k hk)

-- A scan from a prefix to its upper bound shows a key of bytes exactly when it has the prefix, also
-- where the prefix ends in 0xFF bytes or has no upper bound at all.
pub in_range-prefix_upper_bound :
    (p k : List ℕ) → IsBytes k → in_range p (prefix_upper_bound p) k ≡ has_prefix k p
in_range-prefix_upper_bound p k hk =
    ap (λ (u : Option (List ℕ)). in_range p u k) (prefix_upper_bound-upper_bound p)
    ∙ range-has_prefix p k hk

-- Two delay keys of 64-bit numbers come in the order of their due times, and of their sequence
-- numbers where the due times agree.
pub lex_lt-delay_key :
    (d s d' s' : ℕ)
    → IsU64 d
    → IsU64 s
    → IsU64 d'
    → IsU64 s'
    → lex_lt (Keys.delay_key d s) (Keys.delay_key d' s') ≡ (if d == d' then ltb s s' else ltb d d')
unfolding Keys.delay_key
lex_lt-delay_key d s d' s' hd hs hd' hs' =
    lex_lt-append_left Keys.delay_prefix (put_u64 d ++ put_u64 s) (put_u64 d' ++ put_u64 s')
    ∙ lex_lt-put_u64 d d' (put_u64 s) (put_u64 s') hd hd'
    ∙ rw (lex_lt-put_u64_last s s' hs hs')

-- The scan for due messages shows a delay key of 64-bit numbers exactly when its due time is not
-- after now, where now + 1 fits 64 bits.
pub in_range-delay_scan_upper_bound :
    (now d s : ℕ)
    → IsU64 (now + 1)
    → IsU64 d
    → IsU64 s
    → in_range Keys.delay_prefix (some (Keys.delay_scan_upper_bound now)) (Keys.delay_key d s)
      ≡ leb d now
unfolding Keys.delay_scan_upper_bound in_range Keys.delay_key
in_range-delay_scan_upper_bound now d s hn hd hs =
    rw (lex_lt-delay_key d s (now + 1) 0 hd hs hn (omega arith), after_prefix) (ground arith)
  where
    after_prefix : lex_lt (Keys.delay_key d s) Keys.delay_prefix ≡ false
    after_prefix = lex_lt-prefix Keys.delay_prefix (put_u64 d ++ put_u64 s)

-- Message keys of one queue come in the order of their offsets.
pub lex_lt-msg_key :
    (topic : List ℕ) (q o o' : ℕ)
    → IsU64 o
    → IsU64 o'
    → lex_lt (Keys.msg_key topic q o) (Keys.msg_key topic q o') ≡ ltb o o'
unfolding Keys.msg_key
lex_lt-msg_key topic q o o' ho ho' =
    lex_lt-append_left Keys.msg_prefix _ _
    ∙ lex_lt-append_left topic _ _
    ∙ lex_lt-append_left (slash ∷ put_u32 q) (put_u64 o) (put_u64 o')
    ∙ lex_lt-put_u64_last o o' ho ho'

-- Index keys of one business key come in the order of store times.
pub lex_lt-key_idx_key :
    (topic key : List ℕ) (ms ms' q q' o o' : ℕ)
    → IsU64 ms
    → IsU64 ms'
    → ms < ms'
    → lex_lt (Keys.key_idx_key topic key ms q o) (Keys.key_idx_key topic key ms' q' o') ≡ true
unfolding Keys.key_idx_key
lex_lt-key_idx_key topic key ms ms' q q' o o' hm hm' h =
    lex_lt-append_left Keys.key_idx_prefix _ _
    ∙ lex_lt-append_left topic _ _
    ∙ lex_lt-append_left (slash ∷ key) _ _
    ∙ lex_lt-append_left (slash ∷ []) _ _
    ∙ lex_lt-put_u64 ms ms' _ _ hm hm'
    ∙ ground arith
