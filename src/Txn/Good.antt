-- ===== src/Txn/Good.antt =====
-- The invariant of the manager: the records of each transaction come and go together.
use sq.Common.{
  ℕ, ◌+◌, ◌≡◌, refl, ap, sym, ◌∙◌, subst, Bool, true, false, List, [], Option, none, ◌||◌,
  Option-cases, bytes_eq, bytes_eq_refl, inl, inr, none≢some,
}
use sq.Message.{Message}
use sq.Store.Bytes.{IsU64}
use sq.Store.Keys.{half_key, half_idx_key}
use sq.Store.Keys.Halves.{half_key≢half_idx_key}
use sq.Txn.Records.{get}
use sq.Txn.Manager.{EndIo, Half, HalfRef, Json, drop_both, end_txn, enqueue, put_half}
use sq.Txn.Pairs.{
  IsId, Waits, ref-drop_other, ref-drop_self, ref-move_other, ref-put_other, same_or_not,
}
use sq.Txn.Paired.{IsPaired-agree, drop-IsPaired, move-IsPaired, put-IsPaired}
use sq.Txn.Outcomes.{checked_one, dropped_one, end_elim, handle_elim, moved, without}
use sq.Txn.Reach.{
  Act, Happens, IsTogether, Reaches, System, checks, clean_elim, clean_entry, clean_reference,
  cleans, ends, here, issue, next, stage_elim, stages,
}

-- No id was given out, and there are no records.
abbrev pub start : System
start = record {
  half = record { records = []; queued = []; checked = 0; dropped = 0 };
  issued = λ u. false;
}

module _ (json : Json) (decode : List ℕ → Option Message) (max_checks : ℕ) where
  pub start-IsTogether : IsTogether json start.issued start.half
  unfolding get
  start-IsTogether = record {
    paired = record {
      located = λ tx bytes e. absurd (none≢some e);
      indexed = λ ms tx raw hm i e. absurd (none≢some e);
    };
    known = λ tx bytes e. absurd (none≢some e);
  }

  module _ (issued : List ℕ → Bool) where
    without-IsTogether :
        (h : Half) (ref : HalfRef) (tx raw : List ℕ)
        → IsId tx
        → Waits json h.records tx ref raw
        → IsTogether json issued h
        → IsTogether json issued (without ref tx h)
    unfolding without
    without-IsTogether h ref tx raw i w g = record {
      paired = drop-IsPaired json g.paired i w;
      known = λ u bytes e. elim (same_or_not tx u) [
        | inl same ↦ absurd (
            none≢some (
              sym (ref-drop_self (half_key ref.next_check_ms tx) tx h.records)
              ∙ ap
                  (λ (x : List ℕ).
                    get (half_idx_key x) (drop_both (half_key ref.next_check_ms tx) tx h.records))
                  same
              ∙ e))
        | inr differ ↦
            g.known u bytes (sym (ref-drop_other ref.next_check_ms tx u h.records differ) ∙ e)
      ];
    }

    enqueue-IsTogether :
        (h : Half) (tx raw : List ℕ)
        → IsTogether json issued h
        → IsTogether json issued (enqueue tx raw h)
    unfolding enqueue
    enqueue-IsTogether h tx raw g = record { paired = g.paired; known = g.known }

    pub end-IsTogether :
        (io : EndIo) (tx : List ℕ) (commit : Bool) (h : Half)
        → IsTogether json issued h
        → IsTogether json issued (end_txn json decode io tx commit h).0
    end-IsTogether io tx commit h g =
        end_elim json decode (λ x. IsTogether json issued x.0) io tx commit h g.paired (λ e. g)
          (λ n. g)
          (λ ref raw i w c.
            (without-IsTogether h ref tx raw i w g, without-IsTogether h ref tx raw i w g))
          (λ ref raw m i w c em.
            let queued = enqueue-IsTogether h tx raw g in
            let gone =
              without-IsTogether (enqueue tx raw h) ref tx raw i (unfold enqueue in w) queued in
            (λ e. queued, gone, gone))

    moved-IsTogether :
        (h : Half) (ref : HalfRef) (next_ms : ℕ) (tx raw : List ℕ)
        → IsU64 next_ms
        → IsId tx
        → Waits json h.records tx ref raw
        → IsTogether json issued h
        → IsTogether json issued (moved json ref next_ms tx raw h)
    unfolding moved
    moved-IsTogether h ref next_ms tx raw hn i w g = record {
      paired = move-IsPaired json g.paired i w next_ms (ref.checks + 1) hn;
      known = λ u bytes e. elim (same_or_not tx u) [
        | inl same ↦ ap issued (sym same) ∙ g.known tx w.bytes w.reference
        | inr differ ↦ g.known u bytes (
            sym (
              ref-move_other json (half_key ref.next_check_ms tx) next_ms (ref.checks + 1) tx u raw
                h.records (half_key≢half_idx_key ref.next_check_ms tx u) differ)
            ∙ e)
      ];
    }

    checked_one-IsTogether :
        (h : Half) → IsTogether json issued h → IsTogether json issued (checked_one h)
    unfolding checked_one
    checked_one-IsTogether h g = record { paired = g.paired; known = g.known }

    dropped_one-IsTogether :
        (h : Half) → IsTogether json issued h → IsTogether json issued (dropped_one h)
    unfolding dropped_one
    dropped_one-IsTogether h g = record { paired = g.paired; known = g.known }

  pub or_right : (a b : Bool) → b ≡ true → (a || b) ≡ true
  or_right true b h = refl
  or_right false b h = h

  module _ (s : System) (tx : List ℕ) (g : IsTogether json s.issued s.half) where
    pub fresh_reference : s.issued tx ≡ false → get (half_idx_key tx) s.half.records ≡ none
    fresh_reference h = elim (Option-cases (get (half_idx_key tx) s.half.records)) [
      | inl n ↦ n
      | inr (bytes, e) ↦ let both = sym (g.known tx bytes e) ∙ h in cc
    ]

    issue-IsTogether : IsTogether json (λ u. bytes_eq tx u || s.issued u) s.half
    issue-IsTogether = record {
      paired = g.paired;
      known = λ u bytes e. or_right (bytes_eq tx u) (s.issued u) (g.known u bytes e);
    }

    put-IsTogether :
        (next_ms : ℕ) (raw : List ℕ)
        → IsId tx
        → IsU64 next_ms
        → s.issued tx ≡ false
        → IsTogether json
            (λ u. bytes_eq tx u || s.issued u)
            (record (s.half) { records = put_half json next_ms 0 tx raw s.half.records })
    put-IsTogether next_ms raw i hn h = record {
      paired = put-IsPaired json g.paired next_ms 0 tx raw i hn (fresh_reference h);
      known = λ u bytes e. elim (same_or_not tx u) [
        | inl same ↦
            subst (λ (x : List ℕ). (bytes_eq tx x || s.issued x) ≡ true) same
              (ap (λ (b : Bool). b || s.issued tx) (bytes_eq_refl tx))
        | inr differ ↦ or_right (bytes_eq tx u) (s.issued u) (
            g.known u bytes (sym (ref-put_other json next_ms 0 tx u raw s.half.records differ) ∙ e))
      ];
    }

  pub Happens-IsTogether :
      (a : Act) (s t : System)
      → Happens json decode max_checks a s t
      → IsTogether json s.issued s.half
      → IsTogether json t.issued t.half
  unfolding issue
  Happens-IsTogether a s t (stages ensured encode commit now_ms next_ms new_id tx m i hn fresh) g =
      stage_elim json decode max_checks (IsTogether json (λ u. bytes_eq tx u || s.issued u)) ensured
        encode commit now_ms next_ms new_id tx m s.half (issue-IsTogether s tx g)
        (λ raw. put-IsTogether s tx g next_ms raw i hn fresh)
  Happens-IsTogether a s t (ends io tx commit) g = end-IsTogether s.issued io tx commit s.half g
  Happens-IsTogether a s t (checks io ms tx raw hn hm i found) g =
      handle_elim json decode (λ x. IsTogether json s.issued x.0) io ms tx raw s.half g.paired
        max_checks g
        (λ ref j w below.
          let m = moved-IsTogether s.issued s.half ref io.next_ms tx raw hn i w g in
          (m, checked_one-IsTogether s.issued (moved json ref io.next_ms tx raw s.half) m))
        (λ ref j w over.
          let m = without-IsTogether s.issued s.half ref tx raw i w g in
          (m, dropped_one-IsTogether s.issued (without ref tx s.half) m))
        hm i found (λ n. g)
        (λ ref w n. let m = without-IsTogether s.issued s.half ref tx raw i w g in (m, m))
  Happens-IsTogether a s t (cleans write now_ms ks bad) g =
      clean_elim json decode max_checks (IsTogether json s.issued) write ks s.half g (record {
        paired =
            IsPaired-agree json (λ u. clean_reference now_ms u ks s.half.records bad)
              (λ ms u hm i. clean_entry now_ms ms u ks s.half.records hm i bad) g.paired;
        known =
            λ u bytes e. g.known u bytes (sym (clean_reference now_ms u ks s.half.records bad) ∙ e);
      })

  -- Whatever happens, the half message and the reference of each transaction come and go together:
  -- a reference names an entry that is there, an entry is the one that its reference names, and
  -- both are of an id that was given out.
  pub Reaches-IsTogether :
      (s t : System)
      → Reaches json decode max_checks s t
      → IsTogether json s.issued s.half
      → IsTogether json t.issued t.half
  Reaches-IsTogether s t here g = g
  Reaches-IsTogether s t (next {a = a} {t = m} st r) g =
      Reaches-IsTogether m t r (Happens-IsTogether a s m st g)
