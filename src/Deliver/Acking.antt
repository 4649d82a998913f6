-- ===== src/Deliver/Acking.antt =====
-- What the confirmations do to the records of a queue.
use sq.Common.{
  ℕ, ◌+◌, ◌/◌, ◌≡◌, ◌≢◌, refl, sym, ◌∙◌, arith, Bool, true, false, ◌||◌, ◌&&◌, List, [], ◌∷◌, ◌++◌,
  none, some, ◌==◌, ◌⊎◌, subst, if◌then◌else◌, Bool-cases, Option-cases, inl, inr,
}
use sq.Message.{Message}
use sq.Deliver.Table.{Table, lookup, insert, delete, lookup-insert, lookup-delete}
use sq.Deliver.Lease.{Inflight}
use sq.Deliver.State.{
  Queue, Commit, rejected, unsynced, committed, Context, by_client, move_to_dlq, dead_letter,
}
use sq.Deliver.DeadLetters.{move_elim, emptied}
use sq.Deliver.Receive.{Write, delete_inflight, apply_writes, apply_write}
use sq.Deliver.Confirm.{
  ack, first_ok, AckEntry, AckResult, Answer, erred, answered, submit, is_current, ack_all,
  ack_staged, ack_batch, change_invisible, forward_to_dlq, moved_answer, state_of,
}

-- Some entry holds the handle of the current delivery at this offset.
unfoldable pub named : Table Inflight → ℕ → List AckEntry → Bool
named t j [] = false
named t j (e ∷ es) = (e.offset == j && is_current t e.offset e.attempt) || named t j es

abbrev pub verdict : Table Inflight → AckEntry → AckResult
verdict t e = record { offset = e.offset; ok = is_current t e.offset e.attempt }

abbrev pub answers : Table Inflight → List AckEntry → List AckResult
answers t [] = []
answers t (e ∷ es) = verdict t e ∷ answers t es

ack_all-answers :
    (t : Table Inflight) (es : List AckEntry) (ws : List Write) → (ack_all t es ws).0 ≡ answers t es
unfolding ack_all
ack_all-answers t [] ws = refl
ack_all-answers t (e ∷ es) ws = rw (ack_all-answers t es _) refl

ack_all-lookup :
    (t u : Table Inflight) (es : List AckEntry) (ws : List Write) (j : ℕ)
    → lookup j (apply_writes (ack_all t es ws).1 u)
      ≡ (if named t j es then none else lookup j (apply_writes ws u))
unfolding ack_all named apply_writes apply_write
ack_all-lookup t u [] ws j = refl
ack_all-lookup t u (e ∷ es) ws j = elim (Bool-cases (is_current t e.offset e.attempt)) [
  | inl h ↦ ground (
    arith,
    ack_all-lookup t u es (delete_inflight e.offset ∷ ws) j,
    lookup-delete e.offset j (apply_writes ws u),
  )
  | inr h ↦ ground (arith, ack_all-lookup t u es ws j)
]

is_current-none : (t : Table Inflight) (j a : ℕ) → lookup j t ≡ none → is_current t j a ≡ false
unfolding is_current
is_current-none t j a e = rw (is_current, e) refl

named-none :
    (t : Table Inflight) (j : ℕ) (es : List AckEntry) → lookup j t ≡ none → named t j es ≡ false
unfolding named
named-none t j [] h = refl
named-none t j (e ∷ es) h = elim (Bool-cases (e.offset == j)) [
  | inr other ↦ rw other (named-none t j es h)
  | inl same ↦
      let here : e.offset ≡ j = ground arith in
      rw (is_current-none t e.offset e.attempt (rw here h), named-none t j es h) (ground arith)
]

unnamed :
    (t : Table Inflight) (j : ℕ) (es : List AckEntry)
    → lookup j t ≡ (if named t j es then none else lookup j t)
    → named t j es ≡ false
unnamed t j es h = elim (Bool-cases (named t j es)) [
  | inr e ↦ e
  | inl e ↦ named-none t j es (rw e at h)
]

-- The confirmed records are gone, and nothing else has changed.
pub record IsAcked (q : Queue) (es : List AckEntry) (q' : Queue) : Type 0 where
  pub records :
      (j : ℕ) → lookup j q'.inflight ≡ (if named q.inflight j es then none else lookup j q.inflight)
  pub cursor : q'.cursor ≡ q.cursor
  pub msgs : q'.msgs ≡ q.msgs
  pub dead_letters : q'.dead_letters ≡ q.dead_letters
  pub skipped : q'.skipped ≡ q.skipped

abbrev pub done : Queue → List AckEntry → List AckResult × List Write
done q es = ack_all q.inflight es []

abbrev pub without : Queue → List Write → Queue
without q ws = record q { inflight = apply_writes ws q.inflight }

without-IsAcked : (q : Queue) (es : List AckEntry) → IsAcked q es (without q (done q es).1)
without-IsAcked q es = record {
  records = λ j. ack_all-lookup q.inflight q.inflight es [] j ∙ (unfold apply_writes in refl);
  cursor = refl;
  msgs = refl;
  dead_letters = refl;
  skipped = refl;
}

module _ (c : Context) (q : Queue) where
  staged-committed :
      (results : List AckResult) (ws : List Write)
      → c.commit ≡ committed
      → ack_staged c q results ws ≡ answered (without q ws) results
  unfolding ack_staged submit apply_writes
  staged-committed results [] e = refl
  staged-committed results (w ∷ ws) e = rw e refl

  staged-or :
      (x : Commit) (q' : Queue) (results : List AckResult)
      → (state_of (submit x q q' results) ≡ q) ⊎ (state_of (submit x q q' results) ≡ q')
  unfolding submit
  staged-or rejected q' results = inl refl
  staged-or unsynced q' results = inr refl
  staged-or committed q' results = inr refl

  pub ack_batch_eq :
      (es : List AckEntry) → ack_batch c q es ≡ ack_staged c q (done q es).0 (done q es).1
  unfolding ack_batch ack_staged ack_all
  ack_batch_eq [] = refl
  ack_batch_eq (e ∷ es) = refl

  pub ack_batch-answers :
      (es : List AckEntry)
      → c.commit ≡ committed
      → (q' : Queue) × (ack_batch c q es ≡ answered q' (answers q.inflight es)) × IsAcked q es q'
  ack_batch-answers es e = (
    without q (done q es).1,
    ack_batch_eq es
        ∙ staged-committed (done q es).0 (done q es).1 e
        ∙ rw (ack_all-answers q.inflight es []) refl,
    without-IsAcked q es,
  )

  pub staged_whole :
      (results : List AckResult) (ws : List Write)
      → (state_of (ack_staged c q results ws) ≡ q)
        ⊎ (state_of (ack_staged c q results ws) ≡ without q ws)
  unfolding ack_staged
  staged_whole results [] = inl refl
  staged_whole results (w ∷ ws) = staged-or c.commit (without q (w ∷ ws)) results

  -- The end of a batch acknowledgement: what it answers, and what it leaves.
  abbrev pub AckOutcome : List AckEntry → Answer (List AckResult) → Type 0
  AckOutcome es (answered q' results) =
      (results ≡ answers q.inflight es)
      × IsAcked q es q'
      × ((c.commit ≡ committed) ⊎ ((j : ℕ) → named q.inflight j es ≡ false))
  AckOutcome es (erred q') =
      ((c.commit ≡ rejected) × (q' ≡ q)) ⊎ ((c.commit ≡ unsynced) × IsAcked q es q')

  submit-AckOutcome :
      (es : List AckEntry) (q' : Queue)
      → IsAcked q es q'
      → (x : Commit) → c.commit ≡ x
      → AckOutcome es (submit x q q' (answers q.inflight es))
  unfolding submit
  submit-AckOutcome es q' k rejected e = inl (e, refl)
  submit-AckOutcome es q' k unsynced e = inr (e, k)
  submit-AckOutcome es q' k committed e = (refl, k, inl e)

  staged-AckOutcome :
      (es : List AckEntry) (ws : List Write)
      → IsAcked q es (without q ws)
      → AckOutcome es (ack_staged c q (answers q.inflight es) ws)
  unfolding ack_staged apply_writes
  staged-AckOutcome es [] k = (refl, k, inr (λ j. unnamed q.inflight j es (k.records j)))
  staged-AckOutcome es (w ∷ ws) k = submit-AckOutcome es (without q (w ∷ ws)) k c.commit refl

  -- A batch acknowledgement that answers has confirmed exactly the entries that name a current
  -- delivery, and says so of each; its batch was committed, unless no entry names one. A batch
  -- acknowledgement that ends in an error has changed nothing, if its commit was rejected, or has
  -- confirmed all of those entries, if the commit was applied and not made durable.
  pub ack_batch_whole : (es : List AckEntry) → AckOutcome es (ack_batch c q es)
  ack_batch_whole es = subst (AckOutcome es) (sym (ack_batch_eq es)) (
      subst (λ r. AckOutcome es (ack_staged c q r (done q es).1))
        (sym (ack_all-answers q.inflight es []))
        (staged-AckOutcome es (done q es).1 (without-IsAcked q es)))

  -- A handle whose delivery is not the current one (confirmed before, redelivered since) changes
  -- nothing and is answered with false by ChangeInvisible and ForwardToDLQ.
  pub is_current-stale :
      (now_ns offset attempt invisible : ℕ)
      → is_current q.inflight offset attempt ≡ false
      → (change_invisible c q now_ns offset attempt invisible ≡ answered q false)
        × (forward_to_dlq c q offset attempt ≡ answered q false)
  unfolding is_current change_invisible forward_to_dlq
  is_current-stale now_ns offset attempt invisible h =
      elim (Option-cases (lookup offset q.inflight)) [
        | inl e ↦ ground (arith, e)
        | inr (st, e) ↦ ground (arith, e)
      ]

  -- The record of the offset has a new expiry; its attempts, its order lock and its lease are kept,
  -- and so is the rest of the queue.
  pub record IsDeferred (offset expiry : ℕ) (q' : Queue) : Type 0 where
    pub records :
        (st : Inflight) × (lookup offset q.inflight ≡ some st)
        × ((j : ℕ)
            → lookup j q'.inflight ≡ (
                if offset == j
                then some (record st { expire_at_ms = expiry })
                else lookup j q.inflight))
    pub cursor : q'.cursor ≡ q.cursor
    pub msgs : q'.msgs ≡ q.msgs
    pub dead_letters : q'.dead_letters ≡ q.dead_letters
    pub skipped : q'.skipped ≡ q.skipped

  -- The end of a change of the invisible time.
  abbrev pub ChangeOutcome : ℕ → ℕ → ℕ → Answer Bool → Type 0
  ChangeOutcome offset attempt expiry (answered q' true) =
      (is_current q.inflight offset attempt ≡ true)
      × (c.commit ≡ committed)
      × IsDeferred offset expiry q'
  ChangeOutcome offset attempt expiry (answered q' false) =
      (is_current q.inflight offset attempt ≡ false) × (q' ≡ q)
  ChangeOutcome offset attempt expiry (erred q') =
      (is_current q.inflight offset attempt ≡ true)
      × (((c.commit ≡ rejected) × (q' ≡ q)) ⊎ ((c.commit ≡ unsynced) × IsDeferred offset expiry q'))

  submit-ChangeOutcome :
      (offset attempt expiry : ℕ) (q' : Queue)
      → is_current q.inflight offset attempt ≡ true
      → IsDeferred offset expiry q'
      → (x : Commit) → c.commit ≡ x
      → ChangeOutcome offset attempt expiry (submit x q q' true)
  unfolding submit
  submit-ChangeOutcome offset attempt expiry q' h k rejected e = (h, inl (e, refl))
  submit-ChangeOutcome offset attempt expiry q' h k unsynced e = (h, inr (e, k))
  submit-ChangeOutcome offset attempt expiry q' h k committed e = (h, e, k)

  -- ChangeInvisible answers false exactly for a handle whose delivery is not the current one, and
  -- changes nothing then. For a current handle it answers true once the expiry is committed; it ends
  -- in an error with nothing changed if the commit was rejected, and with the new expiry if the
  -- commit was applied and not made durable. No other record changes, and of the record only the
  -- expiry does.
  pub change_invisible_lem :
      (now_ns offset attempt invisible : ℕ)
      → ChangeOutcome offset attempt
          ((now_ns + invisible) / 1_000_000)
          (change_invisible c q now_ns offset attempt invisible)
  unfolding change_invisible is_current
  change_invisible_lem now_ns offset attempt invisible =
      elim (Option-cases (lookup offset q.inflight)) [
        | inl e ↦
            let ends : change_invisible c q now_ns offset attempt invisible ≡ answered q false =
              rw (e, change_invisible) refl in
            subst Result (sym ends) (rw (e, is_current) refl, refl)
        | inr (st, e) ↦ elim (Bool-cases (st.attempts == attempt)) [
          | inr f ↦
              let ends : change_invisible c q now_ns offset attempt invisible ≡ answered q false =
                rw (e, f, change_invisible) refl in
              subst Result (sym ends) (rw (e, is_current) f, refl)
          | inl f ↦
              let st' = record st { expire_at_ms = (now_ns + invisible) / 1_000_000 } in
              let q' = record q { inflight = insert offset st' q.inflight } in
              let ends : change_invisible c q now_ns offset attempt invisible
                  ≡ submit c.commit q q' true =
                rw (e, f, change_invisible) refl in
              subst Result (sym ends) (
                submit-ChangeOutcome offset attempt ((now_ns + invisible) / 1_000_000) q'
                  (rw (e, is_current) f)
                  (record {
                    records = (st, e, λ j. lookup-insert offset j st' q.inflight);
                    cursor = refl;
                    msgs = refl;
                    dead_letters = refl;
                    skipped = refl;
                  })
                  c.commit refl)
        ]
      ]
    where
      Result : Answer Bool → Type 0
      Result a = ChangeOutcome offset attempt ((now_ns + invisible) / 1_000_000) a

  -- The record of the offset is gone, and either its message was gone already or it is written to
  -- the group's dead letters.
  abbrev pub IsForwarded : ℕ → ℕ → Queue → Type 0
  IsForwarded offset attempt q' =
      ((j : ℕ) → lookup j q'.inflight ≡ (if offset == j then none else lookup j q.inflight))
      × (((lookup offset q.msgs ≡ none) × (q'.dead_letters ≡ q.dead_letters))
          ⊎ ((raw : List ℕ) × (m : Message) × (lookup offset q.msgs ≡ some raw)
              × (c.decode raw ≡ some m)
              × (q'.dead_letters
                  ≡ q.dead_letters ++ (dead_letter c offset m attempt by_client ∷ []))))

  -- The dead letter is written before the record is deleted.
  abbrev pub IsKept : Queue → Type 0
  IsKept q' = (q'.inflight ≡ q.inflight) × (q'.msgs ≡ q.msgs)

  abbrev pub IsForwardOutcome : ℕ → ℕ → Answer Bool → Type 0
  IsForwardOutcome offset attempt (erred q') = IsKept q' ⊎ IsForwarded offset attempt q'
  IsForwardOutcome offset attempt (answered q' true) = IsForwarded offset attempt q'
  IsForwardOutcome offset attempt (answered q' false) = q' ≡ q

  orphan-IsForwarded :
      (offset attempt : ℕ)
      → lookup offset q.msgs ≡ none
      → IsForwarded offset attempt (record q { inflight = delete offset q.inflight })
  orphan-IsForwarded offset attempt e = (λ j. lookup-delete offset j q.inflight, inl (e, refl))

  orphan_outcome :
      (offset attempt : ℕ) (x : Commit)
      → lookup offset q.msgs ≡ none
      → IsForwardOutcome offset attempt
          (submit x q (record q { inflight = delete offset q.inflight }) true)
  unfolding submit
  orphan_outcome offset attempt rejected e = inl (refl, refl)
  orphan_outcome offset attempt unsynced e = inr (orphan-IsForwarded offset attempt e)
  orphan_outcome offset attempt committed e = orphan-IsForwarded offset attempt e

  moved_outcome :
      (offset attempt : ℕ) (raw : List ℕ) (m : Message)
      → lookup offset q.msgs ≡ some raw
      → c.decode raw ≡ some m
      → IsForwardOutcome offset attempt (moved_answer (move_to_dlq c q offset m attempt by_client))
  unfolding moved_answer
  moved_outcome offset attempt raw m e f =
      let gone : IsForwarded offset attempt (emptied c q offset m attempt by_client) =
        (λ j. lookup-delete offset j q.inflight, inr (raw, m, e, f, refl)) in
      move_elim c q offset m attempt by_client
        (λ x. IsForwardOutcome offset attempt (moved_answer x)) (inl (refl, refl))
        (inl (refl, refl)) (inr gone) gone

  -- ForwardToDLQ never loses a delivery: answered with true, the record is gone and its message is
  -- among the dead letters, unless retention had removed it; answered with false, nothing has
  -- changed; on an error every record is still there, or the call has had its full effect.
  pub forward_to_dlq_lem :
      (offset attempt : ℕ) → IsForwardOutcome offset attempt (forward_to_dlq c q offset attempt)
  unfolding forward_to_dlq
  forward_to_dlq_lem offset attempt = elim (Bool-cases (is_current q.inflight offset attempt)) [
    | inr h ↦ rw (forward_to_dlq, h) refl
    | inl h ↦ elim (Option-cases (lookup offset q.msgs)) [
      | inl e ↦ rw (forward_to_dlq, h, e) (orphan_outcome offset attempt c.commit e)
      | inr (raw, e) ↦ elim (Option-cases (c.decode raw)) [
        | inl f ↦ rw (forward_to_dlq, h, e, f) (inl (refl, refl))
        | inr (m, f) ↦ rw (forward_to_dlq, h, e, f) (moved_outcome offset attempt raw m e f)
      ]
    ]
  ]

  -- Ack with a current handle, whose commit succeeds, answers true: the delivery's record is gone,
  -- so that the same handle is not current any more, and every other record is as it was.
  pub ack-is_current :
      (offset attempt : ℕ)
      → is_current q.inflight offset attempt ≡ true
      → c.commit ≡ committed
      → (q' : Queue) × (ack c q offset attempt ≡ answered q' true)
        × (is_current q'.inflight offset attempt ≡ false)
        × ((j : ℕ) → offset ≢ j → lookup j q'.inflight ≡ lookup j q.inflight)
        × (q'.cursor ≡ q.cursor)
  unfolding ack first_ok named
  ack-is_current offset attempt h e =
      let one : List AckEntry = record { offset = offset; attempt = attempt } ∷ [] in
      let (q', answer, acked) = ack_batch-answers one e in
      (
        q',
        rw (ack, answer, h) refl,
        is_current-none q'.inflight offset attempt (acked.records offset ∙ ground (arith, h)),
        λ j ne. acked.records j ∙ ground arith,
        acked.cursor,
      )
