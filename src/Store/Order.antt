-- ===== src/Store/Order.antt =====
-- The order of keys. The store keeps its records in byte order (Pebble's default comparer), and
-- internal/store/keys.go relies on it: an iterator's range is half open, [lower, upper).
use sq.Common.{
  ℕ, zero, suc, ◌/◌, ◌%◌, ◌^◌, ◌<◌, ◌≡◌, refl, sym, ◌∙◌, arith, Bool, true, false, not, ◌&&◌, List,
  [], ◌∷◌, ◌++◌, Option, none, some, append_assoc, ltb, ◌==◌, ==_refl, if◌then◌else◌,
}
use mathlib.Core.Path.{ap₂}
use mathlib.Core.List.{append-nil}
use sq.Store.Bytes.{IsU64, IsU32, big_endian, put_u64, put_u32}
use native.Mathlib.Nat.{pow-suc}

-- bytes.Compare(a, b) < 0.
unfoldable pub lex_lt : List ℕ → List ℕ → Bool
lex_lt [] [] = false
lex_lt [] (y ∷ ys) = true
lex_lt (x ∷ xs) [] = false
lex_lt (x ∷ xs) (y ∷ ys) = if x == y then lex_lt xs ys else ltb x y

-- bytes.HasPrefix.
unfoldable pub has_prefix : List ℕ → List ℕ → Bool
has_prefix k [] = true
has_prefix [] (p ∷ ps) = false
has_prefix (c ∷ k) (p ∷ ps) = c == p && has_prefix k ps

-- A key that an iterator over [lower, upper) shows; `none` is no upper bound.
unfoldable pub in_range : List ℕ → Option (List ℕ) → List ℕ → Bool
in_range lower none k = not (lex_lt k lower)
in_range lower (some upper) k = not (lex_lt k lower) && lex_lt k upper

pub lex_lt_irrefl : (k : List ℕ) → lex_lt k k ≡ false
unfolding lex_lt
lex_lt_irrefl [] = refl
lex_lt_irrefl (x ∷ k) = rw (==_refl x) (lex_lt_irrefl k)

pub lex_lt-append_left : (p a b : List ℕ) → lex_lt (p ++ a) (p ++ b) ≡ lex_lt a b
unfolding lex_lt
lex_lt-append_left [] a b = refl
lex_lt-append_left (x ∷ p) a b = rw (==_refl x) (lex_lt-append_left p a b)

pub lex_lt-zero : (k : List ℕ) → lex_lt k [] ≡ false
unfolding lex_lt
lex_lt-zero [] = refl
lex_lt-zero (x ∷ k) = refl

-- A key is never before its own prefix.
pub lex_lt-prefix : (p r : List ℕ) → lex_lt (p ++ r) p ≡ false
unfolding lex_lt
lex_lt-prefix [] r = lex_lt-zero r
lex_lt-prefix (x ∷ p) r = rw (==_refl x) (lex_lt-prefix p r)

pub has_prefix-append : (p r : List ℕ) → has_prefix (p ++ r) p ≡ true
unfolding has_prefix
has_prefix-append [] r = refl
has_prefix-append (x ∷ p) r = rw (==_refl x) (has_prefix-append p r)

-- Big-endian numbers of one width come in the order of the numbers, and equal ones leave it to
-- what follows them.
pub lex_lt-big_endian :
    (n a b : ℕ) (r s : List ℕ)
    → a < 256 ^ n
    → b < 256 ^ n
    → lex_lt (big_endian n a ++ r) (big_endian n b ++ s) ≡ (if a == b then lex_lt r s else ltb a b)
unfolding big_endian
lex_lt-big_endian zero a b r s ha hb = ground arith
lex_lt-big_endian (suc n) a b r s ha hb =
    rw
      (
        append_assoc (big_endian n (a / 256)) (a % 256 ∷ []) r,
        append_assoc (big_endian n (b / 256)) (b % 256 ∷ []) s,
        lex_lt-big_endian n (a / 256) (b / 256) (a % 256 ∷ r) (b % 256 ∷ s)
            (omega (arith, pow-suc 256 n)) (omega (arith, pow-suc 256 n)),
      )
      (unfold lex_lt in ground arith)

pub lex_lt-put_u64 :
    (a b : ℕ) (r s : List ℕ)
    → IsU64 a
    → IsU64 b
    → lex_lt (put_u64 a ++ r) (put_u64 b ++ s) ≡ (if a == b then lex_lt r s else ltb a b)
unfolding put_u64
lex_lt-put_u64 a b r s ha hb = lex_lt-big_endian 8 a b r s (omega arith) (omega arith)

pub lex_lt-put_u32 :
    (a b : ℕ) (r s : List ℕ)
    → IsU32 a
    → IsU32 b
    → lex_lt (put_u32 a ++ r) (put_u32 b ++ s) ≡ (if a == b then lex_lt r s else ltb a b)
unfolding put_u32
lex_lt-put_u32 a b r s ha hb = lex_lt-big_endian 4 a b r s (omega arith) (omega arith)

-- The last field of a key.
pub lex_lt-put_u64_last : (a b : ℕ) → IsU64 a → IsU64 b → lex_lt (put_u64 a) (put_u64 b) ≡ ltb a b
lex_lt-put_u64_last a b ha hb =
    ap₂ lex_lt (sym (append-nil (put_u64 a))) (sym (append-nil (put_u64 b)))
    ∙ lex_lt-put_u64 a b [] [] ha hb
    ∙ (unfold lex_lt in ground arith)
