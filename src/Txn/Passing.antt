-- ===== src/Txn/Passing.antt =====
-- A pass over the due half messages gets through, whatever is in the store.
use sq.Common.{
  ℕ, ◌+◌, ◌≡◌, refl, ◌∙◌, arith, Bool, true, false, List, [], ◌∷◌, Option, none, some, leb, if-elim,
  Option-cases, length, inl, inr,
}
use sq.Message.{Message}
use sq.Deliver.State.{committed}
use sq.Store.Keys.{half_key, half_idx_key, half_prefix, half_scan_upper_bound, parse_half_key}
use sq.Txn.Records.{Records, get, scan}
use sq.Txn.Manager.{
  CheckIo, DueEntry, Half, HalfRef, Json, Passed, apply, ask, bad_keys, check_one, check_ref,
  checked_as, clean, count_check, count_drop, drop_locked, due_entries, handle, handle_all,
  max_check_per_pass, pass,
}
use sq.Txn.Checks.{well}

abbrev Answers : Half × Option Bool → Type 0
Answers r = (b : Bool) × (r.1 ≡ some b)

length-split :
    (found : Records) → length (bad_keys found) + length (due_entries found) ≡ length found
unfolding bad_keys due_entries
length-split [] = refl
length-split ((k, v) ∷ t) = elim (Option-cases (parse_half_key k)) [
  | inl n ↦ rw (n, length, bad_keys, due_entries) (omega (arith, length-split t))
  | inr (p, e) ↦ rw (e, length, bad_keys, due_entries) (omega (arith, length-split t))
]

clean_well : (ks : List (List ℕ)) (h : Half) → (clean committed ks h).1 ≡ false
unfolding clean apply
clean_well [] h = refl
clean_well (k ∷ ks) h = refl

ask-half :
    (tx : List ℕ) (s : Option Bool) (p : Passed)
    → ((ask tx s p).handled ≡ p.handled) × ((ask tx s p).failed ≡ p.failed)
unfolding ask
ask-half tx none p = (refl, refl)
ask-half tx (some true) p = (refl, refl)
ask-half tx (some false) p = (refl, refl)

module _ (json : Json) (max_checks next_ms : ℕ) where
  check_ref-Answers :
      (tx : List ℕ) (ref : HalfRef) (h : Half)
      → Answers (check_ref json max_checks (well next_ms) tx ref h)
  unfolding check_ref count_drop count_check checked_as apply
  check_ref-Answers tx ref h =
      if-elim Answers (leb max_checks ref.checks) _ _ (λ e. (false, refl))
        (λ e. elim (Option-cases (get (half_key ref.next_check_ms tx) h.records)) [
          | inl n ↦ rw n (false, refl)
          | inr (raw, er) ↦ rw er (true, refl)
        ])

  check_one-Answers :
      (key tx : List ℕ) (h : Half) → Answers (check_one json max_checks (well next_ms) key tx h)
  unfolding check_one checked_as apply
  check_one-Answers key tx h = elim (Option-cases (get (half_idx_key tx) h.records)) [
    | inl n ↦ rw n (false, refl)
    | inr (bytes, e) ↦ elim (Option-cases (json.unmarshal bytes)) [
      | inl n ↦ rw (e, n) (false, refl)
      | inr (ref, er) ↦ rw (e, er) (check_ref-Answers tx ref h)
    ]
  ]

  handle-Answers :
      (decode : List ℕ → Option Message) (d : DueEntry) (h : Half)
      → Answers (handle json decode max_checks (well next_ms) d h)
  unfolding handle drop_locked checked_as apply
  handle-Answers decode d h = elim (Option-cases (decode d.raw)) [
    | inl n ↦ rw (n, handle) (false, refl)
    | inr (m, e) ↦ rw (e, handle) (check_one-Answers d.half_at d.tx_id h)
  ]

module _ (json : Json) (decode : List ℕ → Option Message) (max_checks : ℕ)
    (times : List ℕ → ℕ) where
  abbrev pub all_well : List ℕ → CheckIo
  all_well tx = well (times tx)

  handle_all-well :
      (ds : List DueEntry) (handled : ℕ) (h : Half)
      → ((handle_all json decode max_checks all_well ds handled h).handled ≡ handled + length ds)
        × ((handle_all json decode max_checks all_well ds handled h).failed ≡ false)
  unfolding handle_all
  handle_all-well [] handled h = (omega arith, refl)
  handle_all-well (d ∷ ds) handled h =
      let (b, e) = handle-Answers json max_checks (times d.tx_id) decode d h in
      let h' = (handle json decode max_checks (all_well d.tx_id) d h).0 in
      let later = handle_all-well ds (handled + 1) h' in
      let shown =
        ask-half d.tx_id (some b)
          (handle_all json decode max_checks all_well ds (handled + 1) h') in
      rw (e, handle_all) (omega arith, shown.1 ∙ later.1)

  -- Whatever stands in the store, keys that do not parse, entries that cannot be decoded and
  -- references that cannot be read among it: where no read and no batch fails, a pass on the leader
  -- ends without an error and has handled every record of its scan.
  pub pass-handles :
      (now_ms : ℕ) (h : Half)
      → ((pass json decode true true committed max_checks all_well now_ms h).failed ≡ false)
        × ((pass json decode true true committed max_checks all_well now_ms h).handled
            ≡ length (scan half_prefix (half_scan_upper_bound now_ms) max_check_per_pass h.records))
  unfolding pass
  pass-handles now_ms h =
      let found = scan half_prefix (half_scan_upper_bound now_ms) max_check_per_pass h.records in
      let after = (clean committed (bad_keys found) h).0 in
      let done = handle_all-well (due_entries found) (length (bad_keys found)) after in
      rw (clean_well (bad_keys found) h) (done.1, done.0 ∙ length-split found)
