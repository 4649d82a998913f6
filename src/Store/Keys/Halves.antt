-- ===== src/Store/Keys/Halves.antt =====
-- The keys of half messages in internal/store/keys.go tell transactions apart.
use sq.Common.{
  ℕ, ◌<◌, ◌≡◌, ◌≢◌, refl, ap, sym, ◌∙◌, arith, false, List, some, length, get_elem?, some-inj,
}
use sq.Store.Bytes.{IsU64}
use sq.Store.Order.{in_range, lex_lt}
use sq.Store.Keys.{half_key, half_idx_key, half_prefix, half_scan_upper_bound, parse_half_key}
use sq.Store.Keys.RoundTrip.{parse_half_key-half_key}

-- The two keys of a transaction are of different families.
pub half_key≢half_idx_key : (ms : ℕ) (tx u : List ℕ) → half_key ms tx ≢ half_idx_key u
unfolding half_key half_idx_key
half_key≢half_idx_key ms tx u e = let fifth = ap (λ (l : List ℕ). get_elem? l 4) e in ground arith

pub half_idx_key-inj : (tx u : List ℕ) → half_idx_key tx ≡ half_idx_key u → tx ≡ u
unfolding half_idx_key
half_idx_key-inj tx u e = cc

pub half_key-inj :
    (m n : ℕ) (tx u : List ℕ)
    → IsU64 m
    → IsU64 n
    → 0 < length tx
    → 0 < length u
    → half_key m tx ≡ half_key n u
    → (m ≡ n) × (tx ≡ u)
half_key-inj m n tx u hm hn ht hu e =
    let same =
      sym (parse_half_key-half_key m tx hm ht)
      ∙ ap parse_half_key e
      ∙ parse_half_key-half_key n u hn hu in
    (ap (λ (p : ℕ × List ℕ). p.0) (some-inj same), ap (λ (p : ℕ × List ℕ). p.1) (some-inj same))

-- The scan for due entries never shows a reference.
pub half_idx_key-out :
    (now_ms : ℕ) (u : List ℕ)
    → in_range half_prefix (some (half_scan_upper_bound now_ms)) (half_idx_key u) ≡ false
unfolding half_idx_key half_scan_upper_bound half_key in_range lex_lt
half_idx_key-out now_ms u = refl
