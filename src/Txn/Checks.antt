-- ===== src/Txn/Checks.antt =====
-- The checks of a transaction that nobody decides come to an end.
use sq.Common.{
  ℕ, ◌+◌, ◌-◌, ◌≤◌, ◌<◌, ◌≡◌, refl, ap, sym, ◌∙◌, subst, arith, Bool, true, false, List, [], ◌∷◌,
  Option, none, some, leb, Bool-cases, length, inl, inr, All, leb→le,
}
use sq.Deliver.State.{committed}
use sq.Store.Bytes.{IsU64}
use sq.Store.Keys.{half_key, half_idx_key}
use sq.Txn.Records.{get}
use sq.Txn.Manager.{
  CheckIo, Half, HalfRef, Json, apply, check_one, check_ref, count_check, count_drop,
}
use sq.Txn.Pairs.{IsId, IsPaired, Waits, ref-drop_self}
use sq.Txn.Paired.{Waits-move_self, move-IsPaired}
use sq.Txn.Outcomes.{checked_one, dropped_one, moved, without}

-- Every read and every batch succeeds.
abbrev pub well : ℕ → CheckIo
well next_ms = record { reads_ref = true; reads_half = true; write = committed; next_ms = next_ms }

-- One check, then the others.
abbrev and_then : (Half → Half × ℕ) → Half × Option Bool → Half × ℕ
and_then rest (h, none) = rest h
and_then rest (h, some false) = rest h
and_then rest (h, some true) = ((rest h).0, (rest h).1 + 1)

module _ (json : Json) (max_checks : ℕ) (key tx : List ℕ) where
  -- The checks of one transaction, each with the time of the next, and how many were sent.
  pub check_rounds : List ℕ → Half → Half × ℕ
  check_rounds [] h = (h, 0)
  check_rounds (next_ms ∷ times) h =
      and_then (check_rounds times) (check_one json max_checks (well next_ms) key tx h)

  check_again :
      (next_ms : ℕ) (h : Half) (ref : HalfRef) (raw : List ℕ)
      → Waits json h.records tx ref raw
      → ref.checks < max_checks
      → check_one json max_checks (well next_ms) key tx h
        ≡ (checked_one (moved json ref next_ms tx raw h), some true)
  unfolding check_one check_ref count_check checked_one moved apply
  check_again next_ms h ref raw w low =
      let more : leb max_checks ref.checks ≡ false = ground arith in
      rw (w.reference, w.reads, more, w.entry)

  check_over :
      (next_ms : ℕ) (h : Half) (ref : HalfRef) (raw : List ℕ)
      → Waits json h.records tx ref raw
      → max_checks ≤ ref.checks
      → check_one json max_checks (well next_ms) key tx h
        ≡ (dropped_one (without ref tx h), some false)
  unfolding check_one check_ref count_drop dropped_one without apply
  check_over next_ms h ref raw w high =
      let over : leb max_checks ref.checks ≡ true = ground arith in rw (w.reference, w.reads, over)

  check_gone :
      (next_ms : ℕ) (h : Half)
      → get (half_idx_key tx) h.records ≡ none
      → check_one json max_checks (well next_ms) key tx h ≡ (h, some false)
  unfolding check_one
  check_gone next_ms h n = rw n

  rounds_gone :
      (times : List ℕ) (h : Half)
      → get (half_idx_key tx) h.records ≡ none
      → check_rounds times h ≡ (h, 0)
  unfolding check_rounds
  rounds_gone [] h n = refl
  rounds_gone (t ∷ times) h n =
      ap (and_then (check_rounds times)) (check_gone t h n) ∙ rounds_gone times h n

  moved_Waits :
      (next_ms : ℕ) (h : Half) (ref : HalfRef) (raw : List ℕ)
      → IsU64 next_ms
      → IsId tx
      → IsPaired json h.records
      → Waits json h.records tx ref raw
      → IsPaired json (checked_one (moved json ref next_ms tx raw h)).records
        × Waits json
            (checked_one (moved json ref next_ms tx raw h)).records
            tx
            (record { next_check_ms = next_ms; checks = ref.checks + 1 })
            raw
  unfolding checked_one moved
  moved_Waits next_ms h ref raw u i p w = (
    move-IsPaired json p i w next_ms (ref.checks + 1) u,
    Waits-move_self json p i w next_ms (ref.checks + 1) u,
  )

  dropped_gone :
      (h : Half) (ref : HalfRef)
      → get (half_idx_key tx) (dropped_one (without ref tx h)).records ≡ none
  unfolding dropped_one without
  dropped_gone h ref = ref-drop_self (half_key ref.next_check_ms tx) tx h.records

  -- A transaction that waits, was checked no more often than the limit and that nobody decides: after
  -- any number of successful checks that is greater than what the limit leaves, whatever the clock
  -- says at each, its producer was asked exactly as often as the limit leaves, and its reference
  -- is gone.
  pub check_rounds_end :
      (times : List ℕ) (h : Half) (ref : HalfRef) (raw : List ℕ)
      → IsId tx
      → IsPaired json h.records
      → Waits json h.records tx ref raw
      → All IsU64 times
      → ref.checks ≤ max_checks
      → max_checks < ref.checks + length times
      → ((check_rounds times h).1 ≡ max_checks - ref.checks)
        × (get (half_idx_key tx) (check_rounds times h).0.records ≡ none)
  unfolding check_rounds
  check_rounds_end [] h ref raw i p w u few more = absurd (omega arith)
  check_rounds_end (t ∷ times) h ref raw i p w (ut, us) few more =
      let Ends : Half × ℕ → Type 0 =
        λ r. (r.1 ≡ max_checks - ref.checks) × (get (half_idx_key tx) r.0.records ≡ none) in
      elim (Bool-cases (leb max_checks ref.checks)) [
        | inl over ↦
            let high = leb→le max_checks ref.checks over in
            let d = dropped_one (without ref tx h) in
            subst Ends
              (sym (
                ap (and_then (check_rounds times)) (check_over t h ref raw w high)
                ∙ rounds_gone times d (dropped_gone h ref)))
              (omega arith, dropped_gone h ref)
        | inr low ↦
            let m = checked_one (moved json ref t tx raw h) in
            let (p', w') = moved_Waits t h ref raw ut i p w in
            let later =
              check_rounds_end times m (record { next_check_ms = t; checks = ref.checks + 1 }) raw i
                p' w' us (ground arith) (omega arith) in
            subst Ends
              (sym (ap (and_then (check_rounds times)) (check_again t h ref raw w (ground arith))))
              (ground arith, later.1)
      ]
