-- ===== src/Delay/Passing.antt =====
-- A pass in which no call fails moves the due entries, in the order of their due times.
use sq.Common.{
  ℕ, zero, suc, ◌+◌, ◌≤◌, ◌<◌, ◌≡◌, ◌≢◌, refl, ap, sym, ◌∙◌, arith, Bool, true, false, List, [],
  ◌∷◌, ◌++◌, Option, none, some, ltb, ◌==◌, Bool-cases, Option-cases, inl, inr, subst, none≢some,
  All, length, take, drop, append_assoc, ==_refl, take-append-drop,
}
use sq.Message.{Message}
use sq.Deliver.Table.{Ascends, Table, delete, lookup, lookup-below}
use sq.Deliver.State.{committed}
use sq.Delay.Staging.{delay_number}
use sq.Delay.Scheduler.{
  Delays, MoveIo, appended, before, delete_entry, enqueue, max_move_per_pass, move_all, move_one,
  pass, scan_due, move_message, apply_delete,
}

-- Every call of a move succeeds.
abbrev pub all_well : MoveIo
all_well = record { reads = true; appending = appended; deletion = committed }

-- The entries of a table in front of another one, the last one first.
unfoldable pub onto : Table (List ℕ) → Table (List ℕ) → Table (List ℕ)
onto [] q = q
onto (x ∷ t) q = onto t (x ∷ q)

delete-absent : (k n : ℕ) (t : Table (List ℕ)) → Ascends n t → k < n → delete k t ≡ t
unfolding delete
delete-absent k n [] a h = refl
delete-absent k n ((j, v) ∷ t) (hj, a) h =
    let rest = delete-absent k (j + 1) t a (omega arith) in
    let other : (j == k) ≡ false = ground arith in rw (other, rest) refl

delete-first :
    (k n : ℕ) (v : List ℕ) (t : Table (List ℕ)) → Ascends n ((k, v) ∷ t) → delete k ((k, v) ∷ t) ≡ t
unfolding delete
delete-first k n v t (h, a) = rw (==_refl k) (delete-absent k (k + 1) t a (omega arith))

-- A cut that takes less than it may leaves nothing.
none_cut : (n : ℕ) (t : Table (List ℕ)) → length (take n t) < n → drop n t ≡ []
none_cut zero t h = absurd (omega arith)
none_cut (suc n) [] h = refl
none_cut (suc n) (x ∷ t) h = none_cut n t (omega arith)

lookup-first : (k : ℕ) (v : List ℕ) (t : Table (List ℕ)) → lookup k ((k, v) ∷ t) ≡ some v
unfolding lookup
lookup-first k v t = rw (==_refl k) refl

-- Behind the entries before the bound, every entry is at the bound or behind it.
after-bound :
    (bound n : ℕ) (t : Table (List ℕ))
    → Ascends n t
    → (rest : Table (List ℕ)) × (t ≡ before bound t ++ rest)
      × ((k : ℕ) (v : List ℕ) → lookup k rest ≡ some v → bound ≤ k)
unfolding before
after-bound bound n [] a =
    ([], refl, λ k v e. absurd (none≢some (sym (lookup-below (k + 1) k [] tt (omega arith)) ∙ e)))
after-bound bound n ((k, v) ∷ t) (h, a) = elim (Bool-cases (ltb k bound)) [
  | inl y ↦
      let (rest, e, later) = after-bound bound (k + 1) t a in
      (rest, simp y (ap (◌∷◌ (k, v)) e), later)
  | inr b ↦ (
    (k, v) ∷ t,
    simp b,
    λ j w e. elim (Bool-cases (ltb j k)) [
      | inl y ↦
          absurd
            (none≢some (sym (lookup-below k j ((k, v) ∷ t) (omega arith, a) (ground arith)) ∙ e))
      | inr n ↦ ground arith
    ],
  )
]

scan_due-prefix :
    (now : ℕ) (d : Delays)
    → Ascends 0 d.staging.entries
    → (rest : Table (List ℕ)) × (d.staging.entries ≡ scan_due now d ++ rest)
      × ((length (scan_due now d) < max_move_per_pass)
          → (k : ℕ) (v : List ℕ) → lookup k rest ≡ some v
          → delay_number (now + 1) 0 ≤ k)
unfolding scan_due
scan_due-prefix now d a =
    let bound = delay_number (now + 1) 0 in
    let (rest, parts, later) = after-bound bound 0 d.staging.entries a in
    let all = before bound d.staging.entries in
    (
      drop max_move_per_pass all ++ rest,
      parts
          ∙ ap (λ (t : Table (List ℕ)). t ++ rest) (sym (take-append-drop max_move_per_pass all))
          ∙ append_assoc (take max_move_per_pass all) (drop max_move_per_pass all) rest,
      λ short k v e. later k v (
          ap (lookup k)
            (ap (λ (t : Table (List ℕ)). t ++ rest) (sym (none_cut max_move_per_pass all short)))
          ∙ e),
    )

-- What a pass returns that moved so many, and left so much.
abbrev pub outcome : Delays → Table (List ℕ) → Table (List ℕ) → ℕ → Delays × ℕ × Bool
outcome d rest queued count =
    (record { staging = record (d.staging) { entries = rest }; queued = queued }, count, false)

module _ (decode : List ℕ → Option Message) where
  move_one-well :
      (key : ℕ) (raw v : List ℕ) (m : Message) (d : Delays)
      → lookup key d.staging.entries ≡ some v
      → decode raw ≡ some m
      → move_one decode all_well key raw d
        ≡ record { delays = delete_entry key (enqueue key raw d); moved = true; failed = false }
  unfolding move_one move_message apply_delete
  move_one-well key raw v m d e em = simp (e, em)

  move_all-well :
      (dues rest : Table (List ℕ)) (n count : ℕ) (d : Delays)
      → d.staging.entries ≡ dues ++ rest
      → Ascends n (dues ++ rest)
      → All (λ x. decode x.1 ≢ none) dues
      → move_all decode (λ k. all_well) dues count d
        ≡ outcome d rest (onto dues d.queued) (count + length dues)
  unfolding move_all onto
  move_all-well [] rest n count d e a good =
      ap (λ (t : Table (List ℕ)). outcome d t d.queued count) e
      ∙ ap (outcome d rest d.queued) (omega arith)
  move_all-well ((key, raw) ∷ dues) rest n count d e (h, a) (g, good) =
      elim (Option-cases (decode raw)) [
        | inl none_read ↦ absurd (g none_read)
        | inr (m, em) ↦
            let there : lookup key d.staging.entries ≡ some raw =
              ap (lookup key) e ∙ lookup-first key raw (dues ++ rest) in
            let left : delete key d.staging.entries ≡ dues ++ rest =
              ap (delete key) e ∙ delete-first key n raw (dues ++ rest) (h, a) in
            rw (move_one-well key raw raw m d there em) (
              move_all-well dues rest (key + 1) (count + 1) (delete_entry key (enqueue key raw d))
                ((unfold delete_entry enqueue in left)) a good
              ∙ (unfold delete_entry enqueue in
                  ap (outcome d rest (onto dues ((key, raw) ∷ d.queued))) (omega arith)))
      ]

  -- If every call succeeds and every due entry can be decoded, a pass moves the entries that it
  -- scans, in their order, and nothing else, and returns their number; it leaves a due entry only
  -- if it has moved as many as a pass may.
  pub pass-moves :
      (now : ℕ) (d : Delays)
      → Ascends 0 d.staging.entries
      → All (λ x. decode x.1 ≢ none) (scan_due now d)
      → (rest : Table (List ℕ)) × (d.staging.entries ≡ scan_due now d ++ rest)
        × (pass decode true true (λ k. all_well) now d
            ≡ outcome d rest (onto (scan_due now d) d.queued) (length (scan_due now d)))
        × ((length (scan_due now d) < max_move_per_pass)
            → (k : ℕ) (v : List ℕ) → lookup k rest ≡ some v
            → delay_number (now + 1) 0 ≤ k)
  unfolding pass
  pass-moves now d a good =
      let (rest, parts, later) = scan_due-prefix now d a in
      (
        rest,
        parts,
        move_all-well (scan_due now d) rest 0 0 d parts (subst (Ascends 0) parts a) good
            ∙ ap (outcome d rest (onto (scan_due now d) d.queued)) (omega arith),
        later,
      )
