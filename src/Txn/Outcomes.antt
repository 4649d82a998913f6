-- ===== src/Txn/Outcomes.antt =====
-- What End and a check leave and answer, on every branch, for records that are paired.
use sq.Common.{
  ℕ, ◌+◌, ◌%◌, ◌^◌, ◌≤◌, ◌<◌, ◌≡◌, ap, sym, ◌∙◌, subst, arith, Bool, true, false, not, List, Option,
  none, some, leb, leb→le, if◌then◌else◌, if-elim, Option-cases, inl, inr, ◌⊎◌, some-inj, none≢some,
}
use sq.Message.{Message}
use sq.Deliver.State.{Commit, rejected, unsynced, committed}
use sq.Delay.Scheduler.{Appending, append_fails, append_unsynced, appended}
use sq.Store.Bytes.{IsU64}
use sq.Store.Keys.{half_key, half_idx_key}
use sq.Txn.Records.{Records, get, delete, delete-absent}
use sq.Txn.Manager.{
  CheckIo, EndError, EndIo, Ended, Half, HalfRef, Json, answer, answered, append_error, apply,
  apply_error, bad_message, bad_ref, check_one, check_ref, checked_as, commit_half, count_check,
  count_drop, decide_half, drop_both, drop_locked, end_error, end_ref, end_txn, enqueue, handle,
  not_leader, read_error, reschedule,
}
use sq.Txn.Pairs.{IsId, IsPaired, Waits}
use sq.Txn.Paired.{Waits-unique}

-- Both records of a transaction are deleted.
unfoldable pub without : HalfRef → List ℕ → Half → Half
without ref tx h = record h { records = drop_both (half_key ref.next_check_ms tx) tx h.records }

unfoldable pub dropped_one : Half → Half
dropped_one h = record h { dropped = (h.dropped + 1) % 2 ^ 64 }

unfoldable pub checked_one : Half → Half
checked_one h = record h { checked = (h.checked + 1) % 2 ^ 64 }

unfoldable pub moved : Json → HalfRef → ℕ → List ℕ → List ℕ → Half → Half
moved json ref next tx raw h = record h {
  records = reschedule json (half_key ref.next_check_ms tx) next (ref.checks + 1) tx raw h.records;
}

apply_elim :
    (Q : Half × Bool → Type 0) (c : Commit) (batch : Records → Records) (h : Half)
    → Q (h, true)
    → Q (record h { records = batch h.records }, true)
    → Q (record h { records = batch h.records }, false)
    → Q (apply c batch h)
unfolding apply
apply_elim Q rejected batch h same unsure done = same
apply_elim Q unsynced batch h same unsure done = unsure
apply_elim Q committed batch h same unsure done = done

module _ (json : Json) where
  -- The reads of a transaction that waits.
  reads_elim {ℓ} :
      {A : Type 0} (P : A → Type ℓ) (t : Records) (tx : List ℕ) (p : IsPaired json t)
      (absent bad : A) (found : HalfRef → A)
      → (get (half_idx_key tx) t ≡ none → P absent)
      → ((ref : HalfRef) (raw : List ℕ) → IsId tx → Waits json t tx ref raw → P (found ref))
      → P (elim (get (half_idx_key tx) t) as (λ z. A) [
        | none ↦ absent
        | some bytes ↦ elim (json.unmarshal bytes) as (λ z. A) [ none ↦ bad | some r ↦ found r ]
      ])
  reads_elim P t tx p absent bad found out within = elim (Option-cases (get (half_idx_key tx) t)) [
    | inl n ↦ rw n (out n)
    | inr (bytes, e) ↦
        let (i, ref, raw, w) = p.located tx bytes e in
        let reads = ap json.unmarshal (some-inj (sym e ∙ w.reference)) ∙ w.reads in
        rw (e, reads) (within ref raw i w)
  ]

  module _ (decode : List ℕ → Option Message) where
    -- What a commit leaves and answers.
    commit_elim :
        (Q : Half × Ended → Type 0) (io : EndIo) (ref : HalfRef) (tx raw : List ℕ) (h : Half)
        → ((e : EndError) → Q (h, end_error e))
        → ((e : EndError) → Q (enqueue tx raw h, end_error e))
        → Q (without ref tx (enqueue tx raw h), end_error apply_error)
        → Q (without ref tx (enqueue tx raw h), answered true)
        → Q (commit_half io (half_key ref.next_check_ms tx) tx raw h)
    unfolding commit_half without answer
    commit_elim Q io ref tx raw h same queued unsure done = cases io.appending
      where
        key : List ℕ
        key = half_key ref.next_check_ms tx

        cases :
            (a : Appending)
            → Q (elim a as (λ z. Half × Ended) [
              | append_fails ↦ (h, end_error append_error)
              | append_unsynced ↦ (enqueue tx raw h, end_error append_error)
              | appended ↦ answer true (
                  apply io.deletion
                    (drop_both (half_key ref.next_check_ms tx) tx)
                    (enqueue tx raw h))
            ])
        cases append_fails = same append_error
        cases append_unsynced = queued append_error
        cases appended =
            apply_elim (λ x. Q (answer true x)) io.deletion
              (drop_both (half_key ref.next_check_ms tx) tx) (enqueue tx raw h) (queued apply_error)
              unsure done

    pub end_elim :
        (Q : Half × Ended → Type 0) (io : EndIo) (tx : List ℕ) (commit : Bool) (h : Half)
        → IsPaired json h.records
        → ((e : EndError) → Q (h, end_error e))
        → (get (half_idx_key tx) h.records ≡ none → Q (h, answered false))
        → ((ref : HalfRef) (raw : List ℕ)
            → IsId tx
            → Waits json h.records tx ref raw
            → commit ≡ false
            → Q (without ref tx h, end_error apply_error) × Q (without ref tx h, answered true))
        → ((ref : HalfRef) (raw : List ℕ) (m : Message)
            → IsId tx
            → Waits json h.records tx ref raw
            → commit ≡ true
            → decode raw ≡ some m
            → ((e : EndError) → Q (enqueue tx raw h, end_error e))
              × Q (without ref tx (enqueue tx raw h), end_error apply_error)
              × Q (without ref tx (enqueue tx raw h), answered true))
        → Q (end_txn json decode io tx commit h)
    unfolding end_txn
    end_elim Q io tx commit h p same absent rolled put =
        if-elim Q (not io.reads_ref) _ _ (λ e. same read_error)
          (λ e.
            reads_elim Q h.records tx p
              (h, if io.leads_meta then answered false else end_error not_leader)
              (h, end_error bad_ref) (λ ref. end_ref json decode io tx ref commit h)
              (λ n.
                if-elim (λ (x : Ended). Q (h, x)) io.leads_meta _ _ (λ l. absent n)
                  (λ l. same not_leader))
              found)
      where
        decided :
            (ref : HalfRef) (raw : List ℕ)
            → IsId tx
            → Waits json h.records tx ref raw
            → Q (decide_half json decode io (half_key ref.next_check_ms tx) tx raw commit h)
        decided ref raw i w =
            unfold decide_half in
            if-elim Q (not commit) _ _
              (λ e.
                let r = rolled ref raw i w (ground arith) in
                apply_elim (λ x. Q (answer true x)) io.deletion
                  (drop_both (half_key ref.next_check_ms tx) tx) h
                  (unfold answer in same apply_error) (unfold answer without in r.0)
                  (unfold answer without in r.1))
              (λ e. elim (Option-cases (decode raw)) [
                | inl n ↦ simp n (same bad_message)
                | inr (m, em) ↦
                    let r = put ref raw m i w (ground arith) em in
                    simp em (commit_elim Q io ref tx raw h same r.0 r.1 r.2)
              ])

        found :
            (ref : HalfRef) (raw : List ℕ)
            → IsId tx
            → Waits json h.records tx ref raw
            → Q (end_ref json decode io tx ref commit h)
        found ref raw i w =
            unfold end_ref in
            if-elim Q (not io.reads_half) _ _ (λ e. same read_error)
              (λ e. simp w.entry (decided ref raw i w))

    module _ (Q : Half × Option Bool → Type 0) (io : CheckIo) (ms : ℕ) (tx raw : List ℕ) (h : Half)
        (p : IsPaired json h.records) (max_checks : ℕ) (same : Q (h, none))
        (again : (ref : HalfRef)
          → IsId tx
          → Waits json h.records tx ref raw
          → ref.checks < max_checks
          → Q (moved json ref io.next_ms tx raw h, none)
            × Q (checked_one (moved json ref io.next_ms tx raw h), some true))
        (over : (ref : HalfRef)
          → IsId tx
          → Waits json h.records tx ref raw
          → max_checks ≤ ref.checks
          → Q (without ref tx h, none) × Q (dropped_one (without ref tx h), some false)) where
      check_ref_elim :
          (ref : HalfRef)
          → IsId tx
          → Waits json h.records tx ref raw
          → Q (check_ref json max_checks io tx ref h)
      unfolding check_ref count_check count_drop checked_one dropped_one moved without
      check_ref_elim ref i w =
          if-elim Q (leb max_checks ref.checks) _ _
            (λ e.
              let r = over ref i w (leb→le max_checks ref.checks e) in
              apply_elim (λ x. Q (count_drop x)) io.write
                (drop_both (half_key ref.next_check_ms tx) tx) h same r.0 r.1)
            (λ e.
              if-elim Q (not io.reads_half) _ _ (λ f. same)
                (λ f.
                  let r = again ref i w (ground arith) in
                  simp w.entry (
                    apply_elim (λ x. Q (count_check x)) io.write
                      (reschedule json (half_key ref.next_check_ms tx) io.next_ms (ref.checks + 1)
                        tx raw)
                      h same r.0 r.1)))

      -- A check of an entry as it stands in the records.
      check_one_elim :
          (get (half_idx_key tx) h.records ≡ none → Q (h, some false))
          → ((ref : HalfRef) (a : List ℕ) → Waits json h.records tx ref a → a ≡ raw)
          → Q (check_one json max_checks io (half_key ms tx) tx h)
      unfolding check_one
      check_one_elim absent entry =
          if-elim Q (not io.reads_ref) _ _ (λ e. same)
            (λ e.
              reads_elim Q h.records tx p (h, some false)
                (checked_as false (apply io.write (drop_both (half_key ms tx) tx) h))
                (λ ref. check_ref json max_checks io tx ref h) absent
                (λ ref a i w.
                  check_ref_elim ref i
                    (subst (λ (x : List ℕ). Waits json h.records tx ref x) (entry ref a w) w)))

      -- One entry of a pass that is as the scan found it, or is gone since.
      pub handle_elim :
          IsU64 ms
          → IsId tx
          → (get (half_idx_key tx) h.records ≡ none) ⊎ (get (half_key ms tx) h.records ≡ some raw)
          → (get (half_idx_key tx) h.records ≡ none → Q (h, some false))
          → ((ref : HalfRef)
              → Waits json h.records tx ref raw
              → decode raw ≡ none
              → Q (without ref tx h, none) × Q (without ref tx h, some false))
          → Q (
              handle json decode max_checks io
                (record { tx_id = tx; raw = raw; half_at = half_key ms tx })
                h)
      unfolding handle
      handle_elim hm i found absent bad = elim (Option-cases (decode raw)) [
        | inl n ↦ rw (n, handle) (unreadable n found)
        | inr (m, em) ↦ rw (em, handle) (check_one_elim absent (entry found))
      ]
        where
          entry :
              (get (half_idx_key tx) h.records ≡ none) ⊎ (get (half_key ms tx) h.records ≡ some raw)
              → (ref : HalfRef) (a : List ℕ) → Waits json h.records tx ref a
              → a ≡ raw
          entry (inl n) ref a w = absurd (none≢some (sym n ∙ w.reference))
          entry (inr e) ref a w =
              let (r, here, v) = p.indexed ms tx raw hm i e in (Waits-unique json w v).1

          gone_too :
              get (half_idx_key tx) h.records ≡ none
              → drop_both (half_key ms tx) tx h.records ≡ h.records
          gone_too n =
              unfold drop_both in
              ap (delete (half_idx_key tx)) (delete-absent (half_key ms tx) h.records nothing)
              ∙ delete-absent (half_idx_key tx) h.records n
            where
              nothing : get (half_key ms tx) h.records ≡ none
              nothing = elim (Option-cases (get (half_key ms tx) h.records)) [
                | inl z ↦ z
                | inr (a, e) ↦
                    let (r, here, v) = p.indexed ms tx a hm i e in
                    absurd (none≢some (sym n ∙ v.reference))
              ]

          unreadable :
              decode raw ≡ none
              → (get (half_idx_key tx) h.records ≡ none)
                ⊎ (get (half_key ms tx) h.records ≡ some raw)
              → Q (checked_as false (drop_locked io.write tx (half_key ms tx) h))
          unreadable n (inl z) =
              unfold drop_locked checked_as in
              apply_elim (λ x. Q (checked_as false x)) io.write (drop_both (half_key ms tx) tx) h
                same (rw (gone_too z) same) (rw (gone_too z) (absent z))
          unreadable n (inr e) =
              unfold drop_locked checked_as without in
              let (r, here, v) = p.indexed ms tx raw hm i e in
              let b = bad r v n in
              apply_elim (λ x. Q (checked_as false x)) io.write (drop_both (half_key ms tx) tx) h
                same
                (subst
                  (λ (k : ℕ).
                    Q (record h { records = drop_both (half_key k tx) tx h.records }, none))
                  here b.0)
                (subst
                  (λ (k : ℕ).
                    Q (record h { records = drop_both (half_key k tx) tx h.records }, some false))
                  here b.1)
