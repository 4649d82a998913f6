-- ===== src/Produce/Choice.antt =====
-- The choice of a queue in turn finds a queue that this node leads.
use sq.Common.{
  ℕ, zero, suc, ◌+◌, ◌-◌, ◌*◌, ◌/◌, ◌%◌, ◌^◌, ◌<◌, ◌≤◌, ◌≡◌, ap, sym, ◌∙◌, arith, Bool, true, false,
  Bool-cases, inl, inr, leb, ◌≢◌, ◌==◌,
}
use native.Mathlib.Nat.{add-mod_left, div-add-mod, mod-eq_of_lt, mod-lt, mul-add-mod_self_left}
use sq.Produce.Append.{choose_from, choose_queue}

-- One round over the queues comes to every queue.
round : (r n q : ℕ) → q < n → (j : ℕ) × (j < n) × ((r + j) % n ≡ q)
round r n q h =
    let t = n * (r / n) in
    let parts : t + r % n ≡ r = div-add-mod r n in
    let low : r % n < n = mod-lt r (omega arith) in
    let last : (t + q) % n ≡ q = mul-add-mod_self_left n (r / n) q ∙ mod-eq_of_lt h in
    elim (Bool-cases (leb (r % n) q)) [
      | inl y ↦ (
        q - r % n,
        omega arith,
        ap (λ (x : ℕ). x % n) {x = r + (q - r % n)} {y = t + q} (ground arith) ∙ last,
      )
      | inr y ↦ (
        q + n - r % n,
        ground arith,
        ap (λ (x : ℕ). x % n) {x = r + (q + n - r % n)} {y = n + (t + q)} (omega arith)
            ∙ add-mod_left n (t + q)
            ∙ last,
      )
    ]

true≢false : true ≢ false
true≢false e = cc

module _ (leads : ℕ → Bool) (rr queues given : ℕ) where
  abbrev IsChosen : ℕ → Type 0
  IsChosen q = (leads q ≡ true) × (q < queues)

  choose_from-IsChosen :
      (left i j : ℕ)
      → 0 < queues
      → i ≤ j
      → j < i + left
      → leads ((rr + j) % 2 ^ 32 % queues) ≡ true
      → IsChosen (choose_from leads rr queues given i left)
  unfolding choose_from
  choose_from-IsChosen zero i j some_queue low high e = absurd (omega arith)
  choose_from-IsChosen (suc left) i j some_queue low high e =
      let q = (rr + i) % 2 ^ 32 % queues in
      elim (Bool-cases (leads q)) [
        | inl y ↦ rw y (y, mod-lt ((rr + i) % 2 ^ 32) some_queue)
        | inr n ↦ elim (Bool-cases (i == j)) [
          | inl same ↦ absurd (
              true≢false (
                sym e
                ∙ ap (λ (x : ℕ). leads ((rr + x) % 2 ^ 32 % queues)) {x = j} {y = i} (ground arith)
                ∙ n))
          | inr other ↦
              rw n (choose_from-IsChosen left (i + 1) j some_queue (ground arith) (omega arith) e)
        ]
      ]

  -- If the counter is not about to wrap around and this node leads one of the queues, the queue that
  -- is chosen is one of the queues, and this node leads it.
  pub choose_queue-IsChosen :
      (q : ℕ)
      → q < queues
      → rr + queues ≤ 2 ^ 32
      → leads q ≡ true
      → (leads (choose_queue leads rr queues given) ≡ true)
        × (choose_queue leads rr queues given < queues)
  unfolding choose_queue
  choose_queue-IsChosen q low fits e =
      let (j, before, comes) = round rr queues q low in
      let whole : (rr + j) % 2 ^ 32 ≡ rr + j = omega arith in
      choose_from-IsChosen queues 0 j (omega arith) (omega arith) (omega arith)
        (ap leads (ap (λ (x : ℕ). x % queues) whole ∙ comes) ∙ e)
