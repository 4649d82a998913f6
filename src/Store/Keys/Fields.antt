-- ===== src/Store/Keys/Fields.antt =====
-- The lemmas on the parts of a key: its prefix, a name up to a '/', and fixed-width integers.
use sq.Common.{
  false, drop-drop, List-cases, ℕ, zero, suc, ◌+◌, ◌-◌, ◌≡◌, refl, ap, ◌∙◌, sym, arith,
  Option-cases, inl, inr, List, [], ◌∷◌, ◌++◌, some, length, length-append, length-take,
  length-drop, take, drop, take-append_length, drop-append_length, take-append-drop, All-take,
  All-drop, ltb, append_assoc,
}
use sq.Store.Bytes.{
  IsByte, IsBytes, IsU32, IsU64, put_u64, put_u32, uint64, uint32, length-big_endian,
  from-big_endian, big_endian-from,
}
use sq.Store.Keys.{cut_prefix, index_byte, cut_name, cut_tail, slash, IsName}

pub length-put_u64 : (v : ℕ) → length (put_u64 v) ≡ 8
unfolding put_u64
length-put_u64 v = length-big_endian 8 v

pub length-put_u32 : (v : ℕ) → length (put_u32 v) ≡ 4
unfolding put_u32
length-put_u32 v = length-big_endian 4 v

pub uint64-put_u64 : (v : ℕ) → IsU64 v → uint64 (put_u64 v) ≡ v
unfolding uint64 put_u64
uint64-put_u64 v h = from-big_endian 8 v (omega arith)

pub uint32-put_u32 : (v : ℕ) → IsU32 v → uint32 (put_u32 v) ≡ v
unfolding uint32 put_u32
uint32-put_u32 v h = from-big_endian 4 v (omega arith)

pub put_u64-uint64 : (b : List ℕ) → IsBytes b → length b ≡ 8 → put_u64 (uint64 b) ≡ b
unfolding uint64 put_u64
put_u64-uint64 b h e = big_endian-from b 8 h e

pub put_u32-uint32 : (b : List ℕ) → IsBytes b → length b ≡ 4 → put_u32 (uint32 b) ≡ b
unfolding uint32 put_u32
put_u32-uint32 b h e = big_endian-from b 4 h e

pub cut_prefix-append : (p r : List ℕ) → cut_prefix (p ++ r) p ≡ some r
unfolding cut_prefix
cut_prefix-append [] r = refl
cut_prefix-append (x ∷ p) r = ground (arith, cut_prefix-append p r)

pub cut_prefix_sound : (k p : List ℕ) {r : List ℕ} → cut_prefix k p ≡ some r → k ≡ p ++ r
unfolding cut_prefix
cut_prefix_sound k [] h = ground arith
cut_prefix_sound [] (x ∷ p) h = cc
cut_prefix_sound (c ∷ k) (x ∷ p) {r} h = ground (arith, cut_prefix_sound k p {r = r})

index_byte-append :
    (n t : List ℕ) → IsName n → index_byte (n ++ (slash ∷ t)) slash ≡ some (length n)
unfolding index_byte
index_byte-append [] t h = refl
index_byte-append (c ∷ n) t (hc, h) = ground (arith, index_byte-append n t h)

index_byte_sound :
    (r : List ℕ) (i : ℕ)
    → index_byte r slash ≡ some i
    → (r ≡ take i r ++ (slash ∷ drop (suc i) r)) × IsName (take i r)
unfolding index_byte
index_byte_sound [] i h = cc
index_byte_sound (c ∷ r) zero h = ground (arith, Option-cases (index_byte r slash))
index_byte_sound (c ∷ r) (suc i) h = ground (arith, index_byte_sound r i)

drop_past : (n t : List ℕ) (c : ℕ) → drop (length n + 1) (n ++ (c ∷ t)) ≡ t
drop_past n t c = ap (λ (k : ℕ). drop k (n ++ (c ∷ t))) {y = suc (length n)} (omega arith) ∙ go n
  where
    go : (m : List ℕ) → drop (suc (length m)) (m ++ (c ∷ t)) ≡ t
    go [] = refl
    go (x ∷ m) = go m

pub cut_name-append : (n t : List ℕ) → IsName n → cut_name (n ++ (slash ∷ t)) ≡ some (n, t)
unfolding cut_name
cut_name-append n t h =
    rw (
      index_byte-append n t h,
      take-append_length n (slash ∷ t) (length n) refl,
      drop_past n t slash,
    )

pub cut_name_sound : (r n t : List ℕ) → cut_name r ≡ some (n, t) → (r ≡ n ++ (slash ∷ t)) × IsName n
unfolding cut_name
cut_name_sound r n t h = elim (Option-cases (index_byte r slash)) [
  | inl e ↦ ground (arith, e)
  | inr (i, e) ↦ ground (
    arith,
    e,
    index_byte_sound r i e,
    ap (λ (k : ℕ). drop k r) {x = i + 1} {y = suc i} (omega arith),
  )
]

-- The 12 bytes of a queue and an offset that end a key.
abbrev pub coords : ℕ → ℕ → List ℕ
coords queue_id offset = put_u32 queue_id ++ put_u64 offset

pub coords_fields :
    (q o : ℕ)
    → IsU32 q
    → IsU64 o
    → (length (coords q o) ≡ 12)
      × (uint32 (take 4 (coords q o)) ≡ q)
      × (uint64 (drop 4 (coords q o)) ≡ o)
coords_fields q o hq ho = (
  omega (arith, length-append (put_u32 q) (put_u64 o), length-put_u32 q, length-put_u64 o),
  ap uint32 (take-append_length (put_u32 q) (put_u64 o) 4 (sym (length-put_u32 q)))
      ∙ uint32-put_u32 q hq,
  ap uint64 (drop-append_length (put_u32 q) (put_u64 o) 4 (sym (length-put_u32 q)))
      ∙ uint64-put_u64 o ho,
)

pub coords_exact :
    (bin : List ℕ)
    → IsBytes bin
    → length bin ≡ 12
    → coords (uint32 (take 4 bin)) (uint64 (drop 4 bin)) ≡ bin
coords_exact bin h e =
    rw
      (
        put_u32-uint32 (take 4 bin) (All-take IsByte 4 bin h) (omega (arith, length-take 4 bin)),
        put_u64-uint64 (drop 4 bin) (All-drop IsByte 4 bin h) (omega (arith, length-drop 4 bin)),
      )
      (take-append-drop 4 bin)

-- The same for two numbers of 8 bytes.
pub pair64_fields :
    (a b : ℕ)
    → IsU64 a
    → IsU64 b
    → (length (put_u64 a ++ put_u64 b) ≡ 16)
      × (uint64 (take 8 (put_u64 a ++ put_u64 b)) ≡ a)
      × (uint64 (drop 8 (put_u64 a ++ put_u64 b)) ≡ b)
pair64_fields a b ha hb = (
  omega (arith, length-append (put_u64 a) (put_u64 b), length-put_u64 a, length-put_u64 b),
  ap uint64 (take-append_length (put_u64 a) (put_u64 b) 8 (sym (length-put_u64 a)))
      ∙ uint64-put_u64 a ha,
  ap uint64 (drop-append_length (put_u64 a) (put_u64 b) 8 (sym (length-put_u64 a)))
      ∙ uint64-put_u64 b hb,
)

-- The 20 bytes of a time, a queue and an offset that end an index key.
abbrev pub tail20 : ℕ → ℕ → ℕ → List ℕ
tail20 store_ms queue_id offset = put_u64 store_ms ++ coords queue_id offset

length-coords : (q o : ℕ) → length (coords q o) ≡ 12
length-coords q o =
    omega (arith, length-append (put_u32 q) (put_u64 o), length-put_u32 q, length-put_u64 o)

pub length-tail20 : (ms q o : ℕ) → length (tail20 ms q o) ≡ 20
length-tail20 ms q o =
    omega (arith, length-append (put_u64 ms) (coords q o), length-put_u64 ms, length-coords q o)

pub tail20_fields :
    (ms q o : ℕ)
    → IsU64 ms
    → IsU32 q
    → IsU64 o
    → (uint64 (take 8 (tail20 ms q o)) ≡ ms)
      × (uint32 (take 4 (drop 8 (tail20 ms q o))) ≡ q)
      × (uint64 (drop 12 (tail20 ms q o)) ≡ o)
tail20_fields ms q o hm hq ho = (
  ap uint64 (take-append_length (put_u64 ms) (coords q o) 8 (sym (length-put_u64 ms)))
      ∙ uint64-put_u64 ms hm,
  ap (λ (l : List ℕ). uint32 (take 4 l))
        (drop-append_length (put_u64 ms) (coords q o) 8 (sym (length-put_u64 ms)))
      ∙ (coords_fields q o hq ho).1,
  ap (λ (l : List ℕ). uint64 (drop 12 l)) (sym (append_assoc (put_u64 ms) (put_u32 q) (put_u64 o)))
      ∙ ap uint64 (drop-append_length (put_u64 ms ++ put_u32 q) (put_u64 o) 12 front)
      ∙ uint64-put_u64 o ho,
)
  where
    front : 12 ≡ length (put_u64 ms ++ put_u32 q)
    front =
        omega (arith, length-append (put_u64 ms) (put_u32 q), length-put_u64 ms, length-put_u32 q)

drop-twelve : (bin : List ℕ) → drop 12 bin ≡ drop 4 (drop 8 bin)
drop-twelve bin = sym (drop-drop 4 8 bin)

pub tail20_exact :
    (bin : List ℕ)
    → IsBytes bin
    → length bin ≡ 20
    → tail20 (uint64 (take 8 bin)) (uint32 (take 4 (drop 8 bin))) (uint64 (drop 12 bin)) ≡ bin
tail20_exact bin h e =
    rw
      (
        drop-twelve bin,
        put_u64-uint64 (take 8 bin) (All-take IsByte 8 bin h) (omega (arith, length-take 8 bin)),
        coords_exact (drop 8 bin) (All-drop IsByte 8 bin h) (omega (arith, length-drop 8 bin)),
      )
      (take-append-drop 8 bin)

-- The last '/' before 20 bytes splits them off, whatever stands before it.
pub cut_tail-append :
    (front bin : List ℕ) → length bin ≡ 20 → cut_tail (front ++ (slash ∷ bin)) ≡ some (front, bin)
unfolding cut_tail
cut_tail-append front bin e =
    let n = length (front ++ (slash ∷ bin)) in
    let at_slash : n - 21 ≡ length front = omega (arith, length-append front (slash ∷ bin)) in
    let long : ltb n 21 ≡ false = ground (arith, length-append front (slash ∷ bin)) in
    rw (
      drop-append_length front (slash ∷ bin) (n - 21) at_slash,
      cut_tail,
      take-append_length front (slash ∷ bin) (n - 21) at_slash,
      long,
    )

pub cut_tail_sound :
    (rest front bin : List ℕ)
    → cut_tail rest ≡ some (front, bin)
    → (rest ≡ front ++ (slash ∷ bin)) × (length bin ≡ 20)
unfolding cut_tail
cut_tail_sound rest front bin h = elim (List-cases (drop (length rest - 21) rest)) [
  | inl e ↦ cc (rw (e, cut_tail) at h)
  | inr (c, d, e) ↦ ground (
    arith,
    rw (e, cut_tail) at h,
    take-append-drop (length rest - 21) rest,
    length-drop (length rest - 21) rest,
    e,
    ap length e,
  )
]
