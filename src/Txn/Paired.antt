-- ===== src/Txn/Paired.antt =====
-- Every batch of the manager keeps the two records of each half message together.
use sq.Common.{
  ℕ, ◌≡◌, ◌≢◌, ap, sym, ◌∙◌, subst, arith, List, none, some, inl, inr, some-inj, none≢some,
}
use sq.Store.Bytes.{IsU64}
use sq.Store.Keys.{half_key, half_idx_key}
use sq.Store.Keys.Halves.{half_key≢half_idx_key, half_key-inj}
use sq.Txn.Records.{Records, get, set, delete, get-set, get-delete, get-delete_other}
use sq.Txn.Manager.{HalfRef, Json, drop_both, put_half, reschedule}
use sq.Txn.Pairs.{
  IsId, IsPaired, Waits, half-drop_other, half-drop_self, half-put_other, half-put_self, ne_sym,
  ref-drop_other, ref-drop_self, ref-put_other, ref-put_self, ref_bytes, same_or_not,
}

module _ (json : Json) where
  -- What a transaction waits for does not depend on the records of the others.
  pub Waits-carry :
      {t u : Records} {tx : List ℕ} {ref : HalfRef} {raw : List ℕ}
      → Waits json t tx ref raw
      → get (half_idx_key tx) u ≡ get (half_idx_key tx) t
      → get (half_key ref.next_check_ms tx) u ≡ get (half_key ref.next_check_ms tx) t
      → Waits json u tx ref raw
  Waits-carry w e f = record {
    bytes = w.bytes;
    reference = e ∙ w.reference;
    reads = w.reads;
    entry = f ∙ w.entry;
    is_u64 = w.is_u64;
  }

  pub Waits-unique :
      {t : Records} {tx : List ℕ} {r s : HalfRef} {a b : List ℕ}
      → Waits json t tx r a
      → Waits json t tx s b
      → (r ≡ s) × (a ≡ b)
  Waits-unique {t} {tx} {r} {s} {a} {b} v w =
      let same = some-inj (sym v.reference ∙ w.reference) in
      let refs : r ≡ s = some-inj (sym v.reads ∙ ap json.unmarshal same ∙ w.reads) in
      (
        refs,
        some-inj (
            sym v.entry ∙ ap (λ (x : HalfRef). get (half_key x.next_check_ms tx) t) refs ∙ w.entry),
      )

  module _ {t : Records} (p : IsPaired json t) where
    pub Waits-drop_other :
        {tx u : List ℕ} {ref r : HalfRef} {raw a : List ℕ}
        → IsId tx
        → Waits json t tx ref raw
        → tx ≢ u
        → Waits json t u r a
        → Waits json (drop_both (half_key ref.next_check_ms tx) tx t) u r a
    Waits-drop_other {tx} {u} {ref} {r} i w h v =
        Waits-carry v (ref-drop_other ref.next_check_ms tx u t h) (
          half-drop_other ref.next_check_ms r.next_check_ms tx u t w.is_u64 v.is_u64 i
            (p.located u v.bytes v.reference).0 h)

    -- The entry is gone with its reference.
    no_entry_left :
        (ms : ℕ) (tx : List ℕ) (ref : HalfRef) (raw a : List ℕ)
        → IsU64 ms
        → IsId tx
        → Waits json t tx ref raw
        → get (half_key ms tx) (drop_both (half_key ref.next_check_ms tx) tx t) ≢ some a
    unfolding drop_both
    no_entry_left ms tx ref raw a hm i w e =
        elim (same_or_not (half_key ref.next_check_ms tx) (half_key ms tx)) [
          | inl same ↦ none≢some (
              sym (half-drop_self ref.next_check_ms tx t)
              ∙ ap (λ (k : List ℕ). get k (drop_both (half_key ref.next_check_ms tx) tx t)) same
              ∙ e)
          | inr differ ↦
              let kept =
                get-delete_other (half_idx_key tx) (half_key ms tx)
                  (delete (half_key ref.next_check_ms tx) t)
                  (ne_sym (half_key≢half_idx_key ms tx tx))
                ∙ get-delete_other (half_key ref.next_check_ms tx) (half_key ms tx) t differ in
              let (r, here, v) = p.indexed ms tx a hm i (sym kept ∙ e) in
              let refs = (Waits-unique w v).0 in
              differ (
                ap (λ (x : HalfRef). half_key x.next_check_ms tx) refs
                ∙ ap (λ (n : ℕ). half_key n tx) here)
        ]

    pub drop-IsPaired :
        {tx : List ℕ} {ref : HalfRef} {raw : List ℕ}
        → IsId tx
        → Waits json t tx ref raw
        → IsPaired json (drop_both (half_key ref.next_check_ms tx) tx t)
    drop-IsPaired {tx} {ref} {raw} i w = record { located = located; indexed = indexed }
      where
        located :
            (u bytes : List ℕ)
            → get (half_idx_key u) (drop_both (half_key ref.next_check_ms tx) tx t) ≡ some bytes
            → IsId u
              × (r : HalfRef) × (a : List ℕ) × Waits json
                  (drop_both (half_key ref.next_check_ms tx) tx t)
                  u
                  r
                  a
        located u bytes e = elim (same_or_not tx u) [
          | inl same ↦ absurd (
              none≢some (
                sym (ref-drop_self (half_key ref.next_check_ms tx) tx t)
                ∙ ap
                    (λ (x : List ℕ).
                      get (half_idx_key x) (drop_both (half_key ref.next_check_ms tx) tx t))
                    same
                ∙ e))
          | inr differ ↦
              let (iu, r, a, v) =
                p.located u bytes (sym (ref-drop_other ref.next_check_ms tx u t differ) ∙ e) in
              (iu, r, a, Waits-drop_other i w differ v)
        ]

        indexed :
            (ms : ℕ) (u a : List ℕ)
            → IsU64 ms
            → IsId u
            → get (half_key ms u) (drop_both (half_key ref.next_check_ms tx) tx t) ≡ some a
            → (r : HalfRef) × (r.next_check_ms ≡ ms)
              × Waits json (drop_both (half_key ref.next_check_ms tx) tx t) u r a
        indexed ms u a hm iu e = elim (same_or_not tx u) [
          | inl same ↦ absurd (
              no_entry_left ms tx ref raw a hm i w (
                ap
                  (λ (x : List ℕ).
                    get (half_key ms x) (drop_both (half_key ref.next_check_ms tx) tx t))
                  same
                ∙ e))
          | inr differ ↦
              let (r, here, v) =
                p.indexed ms u a hm iu
                  (sym (half-drop_other ref.next_check_ms ms tx u t w.is_u64 hm i iu differ) ∙ e) in
              (r, here, Waits-drop_other i w differ v)
        ]

    -- A transaction that has no reference is put on record.
    module _ (next checks : ℕ) (tx raw : List ℕ) (i : IsId tx) (hn : IsU64 next)
        (fresh : get (half_idx_key tx) t ≡ none) where
      pub Waits-put_self :
          Waits json
            (put_half json next checks tx raw t)
            tx
            (record { next_check_ms = next; checks = checks })
            raw
      Waits-put_self = record {
        bytes = ref_bytes json next checks;
        reference = ref-put_self json next checks tx raw t;
        reads = json.unmarshal-marshal (record { next_check_ms = next; checks = checks });
        entry = half-put_self json next checks tx raw t;
        is_u64 = hn;
      }

      pub Waits-put_other :
          {u : List ℕ} {r : HalfRef} {a : List ℕ}
          → tx ≢ u
          → Waits json t u r a
          → Waits json (put_half json next checks tx raw t) u r a
      Waits-put_other {u} {r} {a} h v =
          Waits-carry v (ref-put_other json next checks tx u raw t h) (
            half-put_other json next checks r.next_check_ms tx u raw t (λ e.
              h
                (half_key-inj next r.next_check_ms tx u hn v.is_u64 i
                  (p.located u v.bytes v.reference).0 e).1))

      put_located :
          (u bytes : List ℕ)
          → get (half_idx_key u) (put_half json next checks tx raw t) ≡ some bytes
          → IsId u
            × (r : HalfRef) × (a : List ℕ) × Waits json (put_half json next checks tx raw t) u r a
      put_located u bytes e = elim (same_or_not tx u) [
        | inl same ↦
            subst
              (λ (x : List ℕ).
                IsId x
                × (r : HalfRef) × (a : List ℕ) × Waits json (put_half json next checks tx raw t) x r
                    a)
              same (i, record { next_check_ms = next; checks = checks }, raw, Waits-put_self)
        | inr differ ↦
            let (iu, r, a, v) =
              p.located u bytes (sym (ref-put_other json next checks tx u raw t differ) ∙ e) in
            (iu, r, a, Waits-put_other differ v)
      ]

      put_indexed_self :
          (ms : ℕ) (a : List ℕ)
          → IsU64 ms
          → get (half_key ms tx) (put_half json next checks tx raw t) ≡ some a
          → (r : HalfRef) × (r.next_check_ms ≡ ms)
            × Waits json (put_half json next checks tx raw t) tx r a
      put_indexed_self ms a hm e = elim (same_or_not (half_key next tx) (half_key ms tx)) [
        | inl same ↦
            let times = (half_key-inj next ms tx tx hn hm i i same).0 in
            let raws = some-inj (
              sym (half-put_self json next checks tx raw t)
              ∙ ap (λ (k : List ℕ). get k (put_half json next checks tx raw t)) same
              ∙ e) in
            (
              record { next_check_ms = next; checks = checks },
              times,
              subst
                  (λ (x : List ℕ).
                    Waits json (put_half json next checks tx raw t) tx
                      (record { next_check_ms = next; checks = checks }) x)
                  raws Waits-put_self,
            )
        | inr differ ↦
            let (r, here, v) =
              p.indexed ms tx a hm i
                (sym (half-put_other json next checks ms tx tx raw t differ) ∙ e) in
            absurd (none≢some (sym fresh ∙ v.reference))
      ]

      put_indexed :
          (ms : ℕ) (u a : List ℕ)
          → IsU64 ms
          → IsId u
          → get (half_key ms u) (put_half json next checks tx raw t) ≡ some a
          → (r : HalfRef) × (r.next_check_ms ≡ ms)
            × Waits json (put_half json next checks tx raw t) u r a
      put_indexed ms u a hm iu e = elim (same_or_not tx u) [
        | inl same ↦
            subst
              (λ (x : List ℕ).
                (r : HalfRef) × (r.next_check_ms ≡ ms)
                × Waits json (put_half json next checks tx raw t) x r a)
              same
              (put_indexed_self ms a hm (
                ap (λ (x : List ℕ). get (half_key ms x) (put_half json next checks tx raw t)) same
                ∙ e))
        | inr differ ↦
            let (r, here, v) = p.indexed ms u a hm iu (
              sym (
                half-put_other json next checks ms tx u raw t
                  (λ k. differ (half_key-inj next ms tx u hn hm i iu k).1))
              ∙ e) in
            (r, here, Waits-put_other differ v)
      ]

      pub put-IsPaired : IsPaired json (put_half json next checks tx raw t)
      put-IsPaired = record { located = put_located; indexed = put_indexed }

  -- A batch that moves an entry leaves what a delete and a new entry leave.
  moved_same :
      (old : List ℕ) (next checks : ℕ) (tx raw j : List ℕ) (t : Records)
      → get j (put_half json next checks tx raw (drop_both old tx t))
        ≡ get j (reschedule json old next checks tx raw t)
  unfolding put_half drop_both reschedule
  moved_same old next checks tx raw j t =
      let k = half_idx_key tx in
      let v = ref_bytes json next checks in
      let n = half_key next tx in
      let bare = delete old t in
      ground (
        arith,
        get-set k j v (set n raw (delete k bare)),
        get-set k j v (set n raw bare),
        get-set n j raw (delete k bare),
        get-set n j raw bare,
        get-delete k j bare,
      )

  Waits-ext :
      {t u : Records} {tx : List ℕ} {ref : HalfRef} {raw : List ℕ}
      → ((j : List ℕ) → get j t ≡ get j u)
      → Waits json t tx ref raw
      → Waits json u tx ref raw
  Waits-ext {t} {u} {tx} {ref} h w =
      Waits-carry w (sym (h (half_idx_key tx))) (sym (h (half_key ref.next_check_ms tx)))

  IsPaired-ext :
      {t u : Records} → ((j : List ℕ) → get j t ≡ get j u) → IsPaired json t → IsPaired json u
  IsPaired-ext {t} {u} h p = record {
    located = λ tx bytes e.
        let (i, ref, raw, w) = p.located tx bytes (h (half_idx_key tx) ∙ e) in
        (i, ref, raw, Waits-ext h w);
    indexed = λ ms tx raw hm i e.
        let (ref, here, w) = p.indexed ms tx raw hm i (h (half_key ms tx) ∙ e) in
        (ref, here, Waits-ext h w);
  }

  module _ {t : Records} (p : IsPaired json t) {tx : List ℕ} {ref : HalfRef} {raw : List ℕ}
      (i : IsId tx) (w : Waits json t tx ref raw) (next checks : ℕ) (hn : IsU64 next) where
    abbrev moved_records : Records
    moved_records = reschedule json (half_key ref.next_check_ms tx) next checks tx raw t

    pub move-IsPaired : IsPaired json moved_records
    move-IsPaired =
        IsPaired-ext (λ j. moved_same (half_key ref.next_check_ms tx) next checks tx raw j t)
          (put-IsPaired (drop-IsPaired p i w) next checks tx raw i hn
            (ref-drop_self (half_key ref.next_check_ms tx) tx t))

    pub Waits-move_self :
        Waits json moved_records tx (record { next_check_ms = next; checks = checks }) raw
    Waits-move_self =
        Waits-ext (λ j. moved_same (half_key ref.next_check_ms tx) next checks tx raw j t)
          (Waits-put_self (drop-IsPaired p i w) next checks tx raw i hn
            (ref-drop_self (half_key ref.next_check_ms tx) tx t))

    pub Waits-move_other :
        {u : List ℕ} {r : HalfRef} {a : List ℕ}
        → tx ≢ u
        → Waits json t u r a
        → Waits json moved_records u r a
    Waits-move_other h v =
        Waits-ext (λ j. moved_same (half_key ref.next_check_ms tx) next checks tx raw j t)
          (Waits-put_other (drop-IsPaired p i w) next checks tx raw i hn
            (ref-drop_self (half_key ref.next_check_ms tx) tx t) h (Waits-drop_other p i w h v))

  -- Records that agree on the keys of every transaction.
  pub IsPaired-agree :
      {t u : Records}
      → ((tx : List ℕ) → get (half_idx_key tx) u ≡ get (half_idx_key tx) t)
      → ((ms : ℕ) (tx : List ℕ)
          → IsU64 ms
          → IsId tx
          → get (half_key ms tx) u ≡ get (half_key ms tx) t)
      → IsPaired json t
      → IsPaired json u
  IsPaired-agree {t} {u} refs entries p = record {
    located = λ tx bytes e.
        let (i, ref, raw, w) = p.located tx bytes (sym (refs tx) ∙ e) in
        (i, ref, raw, Waits-carry w (refs tx) (entries ref.next_check_ms tx w.is_u64 i));
    indexed = λ ms tx raw hm i e.
        let (ref, here, w) = p.indexed ms tx raw hm i (sym (entries ms tx hm i) ∙ e) in
        (ref, here, Waits-carry w (refs tx) (entries ref.next_check_ms tx w.is_u64 i));
  }
