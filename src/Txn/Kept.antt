-- ===== src/Txn/Kept.antt =====
-- No transaction is lost: what can end the wait of a half message.
use sq.Common.{
  ℕ, ◌+◌, ◌<◌, ◌≡◌, ◌≢◌, ap, sym, ◌∙◌, subst, arith, false, List, ◌∷◌, Option, some, inl, inr, ◌⊎◌,
  none≢some,
}
use sq.Message.{Message}
use sq.Store.Bytes.{IsU64}
use sq.Store.Keys.{half_idx_key}
use sq.Txn.Records.{get}
use sq.Txn.Manager.{Half, HalfRef, Json, enqueue}
use sq.Txn.Pairs.{IsId, IsPaired, Waits, same_or_not}
use sq.Txn.Paired.{
  Waits-carry, Waits-drop_other, Waits-move_other, Waits-move_self, Waits-put_other, Waits-unique,
}
use sq.Txn.Outcomes.{checked_one, dropped_one, end_elim, handle_elim, moved, without}
use sq.Txn.Reach.{
  Act, Happens, IsTogether, System, checks, clean_elim, clean_entry, clean_reference, cleans,
  deciding, ends, issue, stage_elim, stages,
}
use sq.Txn.Good.{fresh_reference}
use sq.Txn.Once.{copies, copies_self}

module _ (json : Json) (tx raw : List ℕ) (n : ℕ) where
  -- It still waits, or one message more than n is in its queue.
  abbrev pub IsKept : Half → Type 0
  IsKept h = ((ref : HalfRef) × Waits json h.records tx ref raw) ⊎ (copies tx h.queued ≡ n + 1)

module _ (json : Json) (tx raw : List ℕ) (ref : HalfRef) (h : Half) (p : IsPaired json h.records)
    (w : Waits json h.records tx ref raw) where
  without-kept :
      (u a : List ℕ) (r : HalfRef)
      → IsId u
      → Waits json h.records u r a
      → u ≢ tx
      → Waits json (without r u h).records tx ref raw
  unfolding without
  without-kept u a r i v d = Waits-drop_other json p i v d w

  moved-kept :
      (u a : List ℕ) (r : HalfRef) (next_ms : ℕ)
      → IsU64 next_ms
      → IsId u
      → Waits json h.records u r a
      → u ≢ tx
      → Waits json (moved json r next_ms u a h).records tx ref raw
  unfolding moved
  moved-kept u a r next_ms hn i v d = Waits-move_other json p i v next_ms (r.checks + 1) hn d w

  moved_self-kept :
      (a : List ℕ) (r : HalfRef) (next_ms : ℕ)
      → IsU64 next_ms
      → IsId tx
      → Waits json h.records tx r a
      → Waits json
          (moved json r next_ms tx a h).records
          tx
          (record { next_check_ms = next_ms; checks = r.checks + 1 })
          a
  unfolding moved
  moved_self-kept a r next_ms hn i v = Waits-move_self json p i v next_ms (r.checks + 1) hn

module _ (json : Json) (decode : List ℕ → Option Message) (max_checks : ℕ) where
  -- A half message that can be decoded and was checked fewer times than the limit leaves the store
  -- in one step only by a rollback of its transaction or by a commit that has put one message more
  -- in its queue: after any other step it waits still, with the same bytes.
  pub Happens-IsKept :
      (a : Act) (s t : System) (tx raw : List ℕ) (ref : HalfRef) (m : Message)
      → Happens json decode max_checks a s t
      → IsTogether json s.issued s.half
      → Waits json s.half.records tx ref raw
      → decode raw ≡ some m
      → ref.checks < max_checks
      → a ≢ deciding tx false
      → IsKept json tx raw (copies tx s.half.queued) t.half
  unfolding issue
  Happens-IsKept a s t tx raw ref m
        (stages ensured encode commit now_ms next_ms new_id u mu i hn fresh) g w em low other =
      let d : u ≢ tx = λ e. none≢some (
        sym (fresh_reference json decode max_checks s u g fresh)
        ∙ ap (λ (x : List ℕ). get (half_idx_key x) s.half.records) e
        ∙ w.reference) in
      stage_elim json decode max_checks (IsKept json tx raw (copies tx s.half.queued)) ensured
        encode commit now_ms next_ms new_id u mu s.half (inl (ref, w))
        (λ bytes. inl (
          ref,
          Waits-put_other json g.paired next_ms 0 u bytes i hn
              (fresh_reference json decode max_checks s u g fresh) d w,
        ))
  Happens-IsKept a s t tx raw ref m (ends io u commit) g w em low other =
      let K : Half → Type 0 = IsKept json tx raw (copies tx s.half.queued) in
      end_elim json decode (λ x. K x.0) io u commit s.half g.paired (λ e. inl (ref, w))
        (λ z. inl (ref, w))
        (λ r b i v c. elim (same_or_not u tx) [
          | inl e ↦ absurd (other (rolls e c))
          | inr d ↦
              let k : K (without r u s.half) =
                inl (ref, without-kept json tx raw ref s.half g.paired w u b r i v d) in
              (k, k)
        ])
        (λ r b mb i v c eb. elim (same_or_not u tx) [
          | inl e ↦ (λ x. queued b e, gone r b e, gone r b e)
          | inr d ↦
              let q : Waits json (enqueue u b s.half).records tx ref raw = unfold enqueue in w in
              let k : K (without r u (enqueue u b s.half)) = inl (
                ref,
                without-kept json tx raw ref (enqueue u b s.half) (unfold enqueue in g.paired) q u b
                    r i (unfold enqueue in v) d,
              ) in
              (λ x. inl (ref, q), k, k)
        ])
    where
      rolls : u ≡ tx → commit ≡ false → deciding u commit ≡ deciding tx false
      rolls e c = rw (e, c)

      queued :
          (b : List ℕ) → u ≡ tx → IsKept json tx raw (copies tx s.half.queued) (enqueue u b s.half)
      queued b e =
          unfold enqueue in
          inr (
            ap (λ (x : List ℕ). copies tx ((x, b) ∷ s.half.queued)) e
            ∙ copies_self json decode max_checks tx b s.half.queued)

      gone :
          (r : HalfRef) (b : List ℕ)
          → u ≡ tx
          → IsKept json tx raw (copies tx s.half.queued) (without r u (enqueue u b s.half))
      gone r b e =
          unfold without enqueue in
          inr (
            ap (λ (x : List ℕ). copies tx ((x, b) ∷ s.half.queued)) e
            ∙ copies_self json decode max_checks tx b s.half.queued)
  Happens-IsKept a s t tx raw ref m (checks io ms u b hn hm i found) g w em low other =
      let K : Half → Type 0 = IsKept json tx raw (copies tx s.half.queued) in
      handle_elim json decode (λ x. K x.0) io ms u b s.half g.paired max_checks (inl (ref, w))
        (λ r j v below. elim (same_or_not u tx) [
          | inl e ↦
              let v' : Waits json s.half.records tx r b =
                subst (λ (x : List ℕ). Waits json s.half.records x r b) e v in
              let k : Waits json (moved json r io.next_ms tx raw s.half).records tx
                  (record { next_check_ms = io.next_ms; checks = r.checks + 1 }) raw =
                moved_self-kept json tx raw ref s.half g.paired w raw r io.next_ms hn
                  (subst IsId e i)
                  (subst (λ (x : List ℕ). Waits json s.half.records tx r x)
                    (Waits-unique json v' w).1 v') in
              again r e (Waits-unique json v' w).1 k
          | inr d ↦
              let k = moved-kept json tx raw ref s.half g.paired w u b r io.next_ms hn i v d in
              (inl (ref, k), unfold checked_one in inl (ref, k))
        ])
        (λ r j v over. elim (same_or_not u tx) [
          | inl e ↦
              let v' : Waits json s.half.records tx r b =
                subst (λ (x : List ℕ). Waits json s.half.records x r b) e v in
              let same = ap (λ (x : HalfRef). x.checks) (Waits-unique json v' w).0 in
              absurd (omega arith)
          | inr d ↦
              let k = without-kept json tx raw ref s.half g.paired w u b r i v d in
              (inl (ref, k), unfold dropped_one in inl (ref, k))
        ])
        hm i found (λ z. inl (ref, w))
        (λ r v z. elim (same_or_not u tx) [
          | inl e ↦
              let v' : Waits json s.half.records tx r b =
                subst (λ (x : List ℕ). Waits json s.half.records x r b) e v in
              absurd (none≢some (sym z ∙ ap decode (Waits-unique json v' w).1 ∙ em))
          | inr d ↦
              let k = without-kept json tx raw ref s.half g.paired w u b r i v d in
              (inl (ref, k), inl (ref, k))
        ])
    where
      again :
          (r : HalfRef)
          → u ≡ tx
          → b ≡ raw
          → Waits json
              (moved json r io.next_ms tx raw s.half).records
              tx
              (record { next_check_ms = io.next_ms; checks = r.checks + 1 })
              raw
          → IsKept json tx raw (copies tx s.half.queued) (moved json r io.next_ms u b s.half)
            × IsKept json tx raw
                (copies tx s.half.queued)
                (checked_one (moved json r io.next_ms u b s.half))
      again r e f k =
          rw (e, f)
            (
              inl (record { next_check_ms = io.next_ms; checks = r.checks + 1 }, k),
              unfold checked_one in
                  inl (record { next_check_ms = io.next_ms; checks = r.checks + 1 }, k),
            )
  Happens-IsKept a s t tx raw ref m (cleans write now_ms ks bad) g w em low other =
      clean_elim json decode max_checks (IsKept json tx raw (copies tx s.half.queued)) write ks
        s.half (inl (ref, w))
        (inl (
          ref,
          Waits-carry json w (clean_reference now_ms tx ks s.half.records bad) (
              clean_entry now_ms ref.next_check_ms tx ks s.half.records w.is_u64
                (g.paired.located tx w.bytes w.reference).0 bad),
        ))
