-- ===== src/Store/Bytes.antt =====
-- Fixed-width big-endian integers of internal/store/keys.go (PutU64, GetU64, putU32).
-- `binary.BigEndian` writes the bytes of a number, the highest first.
use sq.Common.{
  ℕ, zero, suc, ◌+◌, ◌*◌, ◌/◌, ◌%◌, ◌^◌, ◌<◌, ◌≡◌, refl, ap, sym, ◌∙◌, arith, List, [], ◌∷◌, ◌++◌,
  Option, none, some, length, length-append, All, All-append, append_assoc, append-nil, ◌==◌,
  if◌then◌else◌,
}
use native.Mathlib.Nat.{pow-suc}

abbrev pub IsByte : ℕ → Type 0
IsByte b = b < 256

abbrev pub IsBytes : List ℕ → Type 0
IsBytes = All IsByte

abbrev pub IsU32 : ℕ → Type 0
IsU32 v = v < 2 ^ 32

abbrev pub IsU64 : ℕ → Type 0
IsU64 v = v < 2 ^ 64

-- The n low bytes of a number, the highest first.
unfoldable pub big_endian : ℕ → ℕ → List ℕ
big_endian zero v = []
big_endian (suc n) v = big_endian n (v / 256) ++ (v % 256 ∷ [])

unfoldable pub from_big_endian : ℕ → List ℕ → ℕ
from_big_endian acc [] = acc
from_big_endian acc (b ∷ bs) = from_big_endian (acc * 256 + b) bs

unfoldable pub put_u64 : ℕ → List ℕ
put_u64 v = big_endian 8 v

unfoldable pub put_u32 : ℕ → List ℕ
put_u32 v = big_endian 4 v

-- binary.BigEndian.Uint64 and Uint32 on a slice of 8 and of 4 bytes.
unfoldable pub uint64 : List ℕ → ℕ
uint64 b = from_big_endian 0 b

unfoldable pub uint32 : List ℕ → ℕ
uint32 b = from_big_endian 0 b

-- `none` is the panic on a slice of another length.
unfoldable pub get_u64 : List ℕ → Option ℕ
get_u64 b = if length b == 8 then some (uint64 b) else none

pub length-big_endian : (n v : ℕ) → length (big_endian n v) ≡ n
unfolding big_endian
length-big_endian zero v = refl
length-big_endian (suc n) v =
    omega
      (arith, length-append (big_endian n (v / 256)) (v % 256 ∷ []), length-big_endian n (v / 256))

pub big_endian-IsBytes : (n v : ℕ) → IsBytes (big_endian n v)
unfolding big_endian
big_endian-IsBytes zero v = tt
big_endian-IsBytes (suc n) v =
    All-append IsByte (big_endian n (v / 256)) _ (big_endian-IsBytes n (v / 256)) (omega arith)

from_big_endian-append :
    (acc : ℕ) (xs ys : List ℕ)
    → from_big_endian acc (xs ++ ys) ≡ from_big_endian (from_big_endian acc xs) ys
unfolding from_big_endian
from_big_endian-append acc [] ys = refl
from_big_endian-append acc (x ∷ xs) ys = from_big_endian-append (acc * 256 + x) xs ys

from_big_endian-last :
    (xs : List ℕ) (b : ℕ) → from_big_endian 0 (xs ++ (b ∷ [])) ≡ from_big_endian 0 xs * 256 + b
from_big_endian-last xs b = from_big_endian-append 0 xs (b ∷ []) ∙ (unfold from_big_endian in refl)

pub from-big_endian : (n v : ℕ) → v < 256 ^ n → from_big_endian 0 (big_endian n v) ≡ v
unfolding big_endian
from-big_endian zero v h = unfold from_big_endian in omega arith
from-big_endian (suc n) v h = omega (
  arith,
  from_big_endian-last (big_endian n (v / 256)) (v % 256),
  from-big_endian n (v / 256) (omega (arith, pow-suc 256 n)),
)

-- The bytes that are read come back when the number is written again.
big_endian-from_acc :
    (bs : List ℕ) (k acc : ℕ)
    → IsBytes bs
    → big_endian (k + length bs) (from_big_endian acc bs) ≡ big_endian k acc ++ bs
unfolding from_big_endian
big_endian-from_acc [] k acc h =
    ap (λ (n : ℕ). big_endian n acc) (omega arith) ∙ sym (append-nil (big_endian k acc))
big_endian-from_acc (b ∷ bs) k acc (hb, h) =
    ap (λ (n : ℕ). big_endian n (from_big_endian (acc * 256 + b) bs)) (omega arith)
    ∙ big_endian-from_acc bs (suc k) (acc * 256 + b) h
    ∙ ap (λ (l : List ℕ). l ++ bs) head
    ∙ append_assoc (big_endian k acc) (b ∷ []) bs
  where
    quotient : (acc * 256 + b) / 256 ≡ acc
    quotient = omega arith

    last : (acc * 256 + b) % 256 ≡ b
    last = omega arith

    head : big_endian (suc k) (acc * 256 + b) ≡ big_endian k acc ++ (b ∷ [])
    head = unfold big_endian in rw (quotient, last)

pub big_endian-from :
    (bs : List ℕ) (n : ℕ) → IsBytes bs → length bs ≡ n → big_endian n (from_big_endian 0 bs) ≡ bs
big_endian-from bs n h e =
    ap (λ (k : ℕ). big_endian k (from_big_endian 0 bs)) (omega arith)
    ∙ big_endian-from_acc bs 0 0 h
    ∙ (unfold big_endian in refl)

from_big_endian-lt :
    (bs : List ℕ) (k acc : ℕ)
    → IsBytes bs
    → acc < 256 ^ k
    → from_big_endian acc bs < 256 ^ (k + length bs)
unfolding from_big_endian
from_big_endian-lt [] k acc h a =
    omega (arith, ap (λ (n : ℕ). 256 ^ n) {x = k} {y = k + 0} (omega arith))
from_big_endian-lt (b ∷ bs) k acc (hb, h) a = omega (
  arith,
  from_big_endian-lt bs (suc k) (acc * 256 + b) h (omega (arith, pow-suc 256 k)),
  ap (λ (n : ℕ). 256 ^ n) {x = suc k + length bs} {y = k + suc (length bs)} (omega arith),
)

pub from-lt : (bs : List ℕ) (n : ℕ) → IsBytes bs → length bs ≡ n → from_big_endian 0 bs < 256 ^ n
from-lt bs n h e = omega (
  arith,
  from_big_endian-lt bs 0 0 h (omega arith),
  ap (λ (n : ℕ). 256 ^ n) {x = 0 + length bs} {y = n} (omega arith),
)
