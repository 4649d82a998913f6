-- ===== src/Meta/Durations.antt =====
-- How long a topic keeps its messages: EffectiveRetention of internal/core/meta/meta.go.
use sq.Common.{
  ℕ, ◌*◌, ◌%◌, ◌^◌, ◌≡◌, ◌<◌, ◌≤◌, ◌↔◌, refl, ap, arith, Bool, leb, Bool-cases, inl, inr, ltb,
  ltb→lt, ℤ, pos, negsuc, true, false,
}
use sq.Meta.Registry.{TopicConfig, effective_retention, int64_of}

abbrev magnitude : ℤ → ℕ
magnitude (pos n) = n
magnitude (negsuc n) = 0

abbrev is_positive : ℤ → Bool
is_positive (pos n) = true
is_positive (negsuc n) = false

int64_of-exact : (n : ℕ) → (int64_of n ≡ pos n) ↔ (n < 2 ^ 63)
int64_of-exact n = (only, λ h. fits h)
  where
    only : int64_of n ≡ pos n → n < 2 ^ 63
    only e = elim (Bool-cases (ltb (n % 2 ^ 64) (2 ^ 63))) [
      | inl small ↦
          let same : n % 2 ^ 64 ≡ n = ap magnitude (rw small at e) in
          omega (arith, ltb→lt (n % 2 ^ 64) (2 ^ 63) small)
      | inr large ↦ let both : false ≡ true = ap is_positive (rw large at e) in cc
    ]

    fits : n < 2 ^ 63 → int64_of n ≡ pos n
    fits h =
        let same : n % 2 ^ 64 ≡ n = omega arith in
        let small : ltb n (2 ^ 63) ≡ true = ground arith in rw (same, small) refl

-- A retention that is set is kept as so many milliseconds exactly when it is at most 9223372036854,
-- about 292 years: beyond that the time.Duration wraps around, to a shorter or a negative one.
pub effective_retention-exact :
    (t : TopicConfig)
    → 0 < t.retention_ms
    → (effective_retention t ≡ pos (t.retention_ms * 1_000_000)) ↔ (t.retention_ms ≤ 9223372036854)
unfolding effective_retention
effective_retention-exact t h =
    let given : leb t.retention_ms 0 ≡ false = ground arith in
    let (exact, fits) = int64_of-exact (t.retention_ms * 1_000_000) in
    rw given (λ e. let bound = exact e in omega arith, λ k. fits (omega arith))
