-- ===== src/Deliver/Lease.antt =====
-- internal/core/deliver/lease.go, and the back-off of deliver.go: when an expired delivery is
-- renewed for its holder, and how long a redelivered message stays hidden.
use sq.Common.{
  ℕ, zero, suc, ◌+◌, ◌-◌, ◌*◌, ◌/◌, ◌^◌, ◌≤◌, ◌<◌, ◌≡◌, arith, Bool, true, false, not, ◌&&◌, List,
  [], Option, none, some, ltb, leb, bytes_eq, if◌then◌else◌, min, ap, ◌∙◌,
}
use native.Mathlib.Nat.{pow-suc}

-- core.InflightState: a delivery that is not confirmed yet. The time at which it may be delivered
-- again, how often it was delivered, whether it holds the queue's order lock, who holds it and how
-- far it may be renewed.
pub record Inflight : Type 0 where
  pub expire_at_ms : ℕ
  pub attempts : ℕ
  pub ordered : Bool
  pub owner : List ℕ
  pub renew_until_ms : ℕ

-- A `time.Duration` is a number of nanoseconds, and Milliseconds() drops the rest.
abbrev pub milliseconds : ℕ → ℕ
milliseconds d = d / 1_000_000

-- `alive` is `none` for the nil function.
pub record Lease : Type 0 where
  pub owner : List ℕ
  pub max_renew : ℕ
  pub alive : Option (List ℕ → Bool)

abbrev is_some : Option (List ℕ → Bool) → Bool
is_some none = false
is_some (some f) = true

unfoldable pub enabled : Lease → Bool
enabled l = not (bytes_eq l.owner []) && (ltb 0 l.max_renew && is_some l.alive)

abbrev ask : Option (List ℕ → Bool) → List ℕ → Bool
ask none owner = false
ask (some f) owner = f owner

unfoldable pub renewable : Lease → Inflight → ℕ → Bool
renewable l st now_ms =
    if not (enabled l)
    then false
    else if leb st.renew_until_ms now_ms
    then false
    else if bytes_eq st.owner []
    then false
    else ask l.alive st.owner

-- A renewal moves the expiry on, never past the budget.
unfoldable pub renewed : ℕ → ℕ → Inflight → Inflight
renewed now_ms invisible st =
    let new_exp = now_ms + milliseconds invisible in
    record st {
      expire_at_ms = if ltb st.renew_until_ms new_exp then st.renew_until_ms else new_exp;
    }

abbrev pub retry_backoff_base : ℕ
retry_backoff_base = 10 * 10 ^ 9

abbrev pub retry_backoff_max : ℕ
retry_backoff_max = 300 * 10 ^ 9

-- The loop, over the rounds left: `d *= 2`, and out at the cap.
unfoldable pub backoff_loop : ℕ → ℕ → ℕ
backoff_loop zero d = if leb retry_backoff_max d then retry_backoff_max else d
backoff_loop (suc rounds) d =
    let rest = backoff_loop rounds (d * 2) in
    if leb retry_backoff_max (d * 2) then retry_backoff_max else rest

-- `for i := 2; i < attempts; i++` makes attempts - 2 rounds.
unfoldable pub retry_backoff : ℕ → ℕ
retry_backoff attempts = backoff_loop (attempts - 2) retry_backoff_base

-- A delivery is renewed only within its budget, and the renewal changes its expiry alone, to a time
-- within the budget.
pub renewed_within :
    (l : Lease) (st : Inflight) (now invisible : ℕ)
    → renewable l st now ≡ true
    → (now < st.renew_until_ms)
      × ((renewed now invisible st).expire_at_ms ≤ st.renew_until_ms)
      × (now ≤ (renewed now invisible st).expire_at_ms)
      × ((renewed now invisible st).attempts ≡ st.attempts)
      × ((renewed now invisible st).ordered ≡ st.ordered)
      × ((renewed now invisible st).renew_until_ms ≡ st.renew_until_ms)
unfolding renewable renewed
renewed_within l st now invisible h = ground arith

-- Once the budget is spent no lease renews the delivery, whoever asks and whatever the session says.
pub renewable-spent :
    (l : Lease) (st : Inflight) (now : ℕ) → st.renew_until_ms ≤ now → renewable l st now ≡ false
unfolding renewable
renewable-spent l st now h = ground arith

le-mul-pow : (d n : ℕ) → d ≤ d * 2 ^ n
le-mul-pow d zero = omega arith
le-mul-pow d (suc n) = omega (arith, le-mul-pow d n, ap (λ (t : ℕ). d * t) (pow-suc 2 n))

backoff_loop-min : (rounds d : ℕ) → backoff_loop rounds d ≡ min retry_backoff_max (d * 2 ^ rounds)
unfolding backoff_loop
backoff_loop-min zero d = ground arith
backoff_loop-min (suc rounds) d = ground (
  arith,
  backoff_loop-min rounds (d * 2),
  le-mul-pow (d * 2) rounds,
  ap (λ (t : ℕ). d * t) (pow-suc 2 rounds),
)

-- The loop of the back-off computes 10 s * 2 ^ n for the delivery n + 2, capped at five minutes.
pub retry_backoff-min :
    (n : ℕ) → retry_backoff (n + 2) ≡ min retry_backoff_max (retry_backoff_base * 2 ^ n)
unfolding retry_backoff
retry_backoff-min n =
    ap (λ (k : ℕ). backoff_loop k retry_backoff_base) {x = n + 2 - 2} (omega arith)
    ∙ backoff_loop-min n retry_backoff_base
