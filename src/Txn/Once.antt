-- ===== src/Txn/Once.antt =====
-- A transaction is decided once: after End has answered that it found the half message, nothing
-- brings the transaction back.
use sq.Common.{
  ℕ, ◌+◌, ◌≡◌, ◌≢◌, refl, ap, sym, ◌∙◌, subst, arith, Bool, true, false, List, [], ◌∷◌, Option,
  none, ◌||◌, if◌then◌else◌, Option-cases, bytes_eq, bytes_eq_refl, inl, inr, none≢some,
  bytes_ne→eq_false,
}
use sq.Message.{Message}
use sq.Store.Bytes.{IsU64}
use sq.Store.Keys.{half_key, half_idx_key}
use sq.Store.Keys.Halves.{half_key≢half_idx_key}
use sq.Txn.Records.{Records, get}
use sq.Txn.Manager.{
  EndError, EndIo, Ended, Half, HalfRef, Json, answered, end_error, end_txn, enqueue,
}
use sq.Txn.Pairs.{IsId, Waits, ref-drop_other, ref-drop_self, ref-move_other, ref-put_other}
use sq.Txn.Outcomes.{checked_one, dropped_one, end_elim, handle_elim, moved, without}
use sq.Txn.Reach.{
  Act, Happens, IsTogether, Reaches, System, checks, clean_elim, clean_reference, cleans, ends,
  here, issue, next, stage_elim, stages,
}
use sq.Txn.Good.{
  end-IsTogether, Happens-IsTogether, Reaches-IsTogether, or_right, start, start-IsTogether,
}

-- How many messages of a transaction are in their queues.
pub copies : List ℕ → Records → ℕ
copies tx [] = 0
copies tx ((u, raw) ∷ t) = (if bytes_eq u tx then 1 else 0) + copies tx t

module _ (json : Json) (decode : List ℕ → Option Message) (max_checks : ℕ) where
  -- The id was given out, there is no reference, and n messages are in their queues.
  record IsSettled (tx : List ℕ) (n : ℕ) (issued : List ℕ → Bool) (h : Half) : Type 0 where
    pub given : issued tx ≡ true
    pub gone : get (half_idx_key tx) h.records ≡ none
    pub count : copies tx h.queued ≡ n

  copies-other : (tx u raw : List ℕ) (t : Records) → u ≢ tx → copies tx ((u, raw) ∷ t) ≡ copies tx t
  unfolding copies
  copies-other tx u raw t h = rw (bytes_ne→eq_false u tx h) (omega arith)

  -- A transaction that waits is another one.
  Waits-ne :
      {tx u : List ℕ} {t : Records} {ref : HalfRef} {raw : List ℕ}
      → get (half_idx_key tx) t ≡ none
      → Waits json t u ref raw
      → u ≢ tx
  Waits-ne {tx} {u} {t} n w e =
      none≢some (sym n ∙ ap (λ (x : List ℕ). get (half_idx_key x) t) (sym e) ∙ w.reference)

  module _ (tx : List ℕ) (n : ℕ) (issued : List ℕ → Bool) where
    without-IsSettled :
        (h : Half) (ref : HalfRef) (u : List ℕ)
        → u ≢ tx
        → IsSettled tx n issued h
        → IsSettled tx n issued (without ref u h)
    unfolding without
    without-IsSettled h ref u d k = record {
      given = k.given;
      gone = ref-drop_other ref.next_check_ms u tx h.records d ∙ k.gone;
      count = k.count;
    }

    enqueue-IsSettled :
        (h : Half) (u raw : List ℕ)
        → u ≢ tx
        → IsSettled tx n issued h
        → IsSettled tx n issued (enqueue u raw h)
    unfolding enqueue
    enqueue-IsSettled h u raw d k = record {
      given = k.given;
      gone = k.gone;
      count = copies-other tx u raw h.queued d ∙ k.count;
    }

    moved-IsSettled :
        (h : Half) (ref : HalfRef) (next_ms : ℕ) (u raw : List ℕ)
        → u ≢ tx
        → IsSettled tx n issued h
        → IsSettled tx n issued (moved json ref next_ms u raw h)
    unfolding moved
    moved-IsSettled h ref next_ms u raw d k = record {
      given = k.given;
      gone =
          ref-move_other json (half_key ref.next_check_ms u) next_ms (ref.checks + 1) u tx raw
            h.records (half_key≢half_idx_key ref.next_check_ms u tx) d
          ∙ k.gone;
      count = k.count;
    }

  Happens-IsSettled :
      (tx : List ℕ) (n : ℕ) (a : Act) (s t : System)
      → Happens json decode max_checks a s t
      → IsTogether json s.issued s.half
      → IsSettled tx n s.issued s.half
      → IsSettled tx n t.issued t.half
  unfolding issue checked_one dropped_one
  Happens-IsSettled tx n a s t (stages ensured encode commit now_ms next_ms new_id u m i hn fresh) g
        k =
      let given' = or_right json decode max_checks (bytes_eq u tx) (s.issued tx) k.given in
      stage_elim json decode max_checks (IsSettled tx n (λ x. bytes_eq u x || s.issued x)) ensured
        encode commit now_ms next_ms new_id u m s.half
        (record { given = given'; gone = k.gone; count = k.count })
        (λ raw. record {
          given = given';
          gone =
              ref-put_other json next_ms 0 u tx raw s.half.records
                (λ (e : u ≡ tx). let both = sym fresh ∙ ap s.issued e ∙ k.given in cc)
              ∙ k.gone;
          count = k.count;
        })
  Happens-IsSettled tx n a s t (ends io u commit) g k =
      end_elim json decode (λ x. IsSettled tx n s.issued x.0) io u commit s.half g.paired (λ e. k)
        (λ z. k)
        (λ ref raw i w c.
          let m = without-IsSettled tx n s.issued s.half ref u (Waits-ne k.gone w) k in (m, m))
        (λ ref raw m i w c em.
          let d = Waits-ne k.gone w in
          let q = enqueue-IsSettled tx n s.issued s.half u raw d k in
          let o = without-IsSettled tx n s.issued (enqueue u raw s.half) ref u d q in
          (λ e. q, o, o))
  Happens-IsSettled tx n a s t (checks io ms u raw hn hm i found) g k =
      handle_elim json decode (λ x. IsSettled tx n s.issued x.0) io ms u raw s.half g.paired
        max_checks k
        (λ ref j w below.
          let m = moved-IsSettled tx n s.issued s.half ref io.next_ms u raw (Waits-ne k.gone w) k in
          (m, record { given = m.given; gone = m.gone; count = m.count }))
        (λ ref j w over.
          let m = without-IsSettled tx n s.issued s.half ref u (Waits-ne k.gone w) k in
          (m, record { given = m.given; gone = m.gone; count = m.count }))
        hm i found (λ z. k)
        (λ ref w z.
          let m = without-IsSettled tx n s.issued s.half ref u (Waits-ne k.gone w) k in (m, m))
  Happens-IsSettled tx n a s t (cleans write now_ms ks bad) g k =
      clean_elim json decode max_checks (IsSettled tx n s.issued) write ks s.half k (record {
        given = k.given;
        gone = clean_reference now_ms tx ks s.half.records bad ∙ k.gone;
        count = k.count;
      })

  Reaches-IsSettled :
      (tx : List ℕ) (n : ℕ) (s t : System)
      → Reaches json decode max_checks s t
      → IsTogether json s.issued s.half
      → IsSettled tx n s.issued s.half
      → IsSettled tx n t.issued t.half
  Reaches-IsSettled tx n s t here g k = k
  Reaches-IsSettled tx n s t (next {a = a} {t = m} st r) g k =
      Reaches-IsSettled tx n m t r (Happens-IsTogether json decode max_checks a s m st g)
        (Happens-IsSettled tx n a s m st g k)

  pub copies_self : (tx raw : List ℕ) (t : Records) → copies tx ((tx, raw) ∷ t) ≡ copies tx t + 1
  unfolding copies
  copies_self tx raw t = rw (bytes_eq_refl tx) (omega arith)

  not_found_again : answered false ≢ answered true
  not_found_again e = cc

  not_an_error : (x : EndError) → end_error x ≢ answered true
  not_an_error x e = cc

  gone-IsSettled :
      (issued : List ℕ → Bool) (h : Half) (ref : HalfRef) (tx : List ℕ)
      → issued tx ≡ true
      → IsSettled tx (copies tx h.queued) issued (without ref tx h)
  unfolding without
  gone-IsSettled issued h ref tx known = record {
    given = known;
    gone = ref-drop_self (half_key ref.next_check_ms tx) tx h.records;
    count = refl;
  }

  end-settles :
      (issued : List ℕ → Bool) (io : EndIo) (tx : List ℕ) (commit : Bool) (h h' : Half)
      → IsTogether json issued h
      → end_txn json decode io tx commit h ≡ (h', answered true)
      → IsId tx × IsSettled tx (copies tx h.queued + (if commit then 1 else 0)) issued h'
  end-settles issued io tx commit h h' g e =
      let n = copies tx h.queued + (if commit then 1 else 0) in
      subst (λ (x : Half × Ended). x.1 ≡ answered true → IsId tx × IsSettled tx n issued x.0) e
        (end_elim json decode (λ x. x.1 ≡ answered true → IsId tx × IsSettled tx n issued x.0) io tx
          commit h g.paired (λ x a. absurd (not_an_error x a)) (λ z a. absurd (not_found_again a))
          (λ ref raw i w c. (
            λ a. absurd (not_an_error _ a),
            λ a. (
              i,
              subst (λ (k : ℕ). IsSettled tx k issued (without ref tx h)) (rolled c)
                  (gone-IsSettled issued h ref tx (g.known tx w.bytes w.reference)),
            ),
          ))
          (λ ref raw m i w c em. (
            λ x a. absurd (not_an_error x a),
            λ a. absurd (not_an_error _ a),
            λ a. (
              i,
              subst (λ (k : ℕ). IsSettled tx k issued (without ref tx (enqueue tx raw h)))
                  (put raw c)
                  (gone-IsSettled issued (enqueue tx raw h) ref tx
                    (g.known tx w.bytes w.reference)),
            ),
          )))
        refl
    where
      rolled : commit ≡ false → copies tx h.queued ≡ copies tx h.queued + (if commit then 1 else 0)
      rolled c = rw c (omega arith)

      put :
          (raw : List ℕ)
          → commit ≡ true
          → copies tx (enqueue tx raw h).queued ≡ copies tx h.queued + (if commit then 1 else 0)
      put raw c = unfold enqueue in copies_self tx raw h.queued ∙ rw c

  -- Once End has answered that it found the half message of a transaction, then, whatever happens
  -- afterwards: neither of its records is in the store, exactly one message more than before is in
  -- its queue if it was a commit and none if it was a rollback, and no End finds it again.
  pub decided-stays :
      (s u : System) (io : EndIo) (tx : List ℕ) (commit : Bool) (h : Half)
      → Reaches json decode max_checks start s
      → end_txn json decode io tx commit s.half ≡ (h, answered true)
      → Reaches json decode max_checks (record s { half = h }) u
      → (get (half_idx_key tx) u.half.records ≡ none)
        × ((ms : ℕ) → IsU64 ms → get (half_key ms tx) u.half.records ≡ none)
        × (copies tx u.half.queued ≡ copies tx s.half.queued + (if commit then 1 else 0))
        × ((io' : EndIo) (c : Bool) → (end_txn json decode io' tx c u.half).1 ≢ answered true)
  decided-stays s u io tx commit h r e r' =
      let g =
        Reaches-IsTogether json decode max_checks start s r
          (start-IsTogether json decode max_checks) in
      let (i, k) = end-settles s.issued io tx commit s.half h g e in
      let gh : IsTogether json s.issued h =
        subst (λ (x : Half × Ended). IsTogether json s.issued x.0) e
          (end-IsTogether json decode max_checks s.issued io tx commit s.half g) in
      let gu = Reaches-IsTogether json decode max_checks (record s { half = h }) u r' gh in
      let ku =
        Reaches-IsSettled tx (copies tx s.half.queued + (if commit then 1 else 0))
          (record s { half = h }) u r' gh k in
      (
        ku.gone,
        λ ms hm. elim (Option-cases (get (half_key ms tx) u.half.records)) [
          | inl z ↦ z
          | inr (a, ea) ↦
              let (ref, at, w) = gu.paired.indexed ms tx a hm i ea in
              absurd (none≢some (sym ku.gone ∙ w.reference))
        ],
        ku.count,
        λ io' c a.
            end_elim json decode (λ x. x.1 ≡ answered true → ⊥) io' tx c u.half gu.paired
              (λ x b. not_an_error x b) (λ z b. not_found_again b)
              (λ ref raw j w z. absurd (none≢some (sym ku.gone ∙ w.reference)))
              (λ ref raw m j w z y. absurd (none≢some (sym ku.gone ∙ w.reference))) a,
      )
