-- ===== src/Seglog/Recovery.antt =====
-- Open gives back the log that was written: the last hard state, and the entries with every
-- rewritten one replaced, whatever the bytes after the last frame are.
use sq.Common.{
  ℕ, suc, ◌+◌, ◌≡◌, refl, ap, sym, ◌∙◌, arith, true, false, List, [], ◌∷◌, ◌++◌, none, some, length,
  take, leb, if◌then◌else◌, append_assoc, append-nil, take-append_length, List-cases, subst, ◌≢◌,
  inl, inr,
}
use sq.Deliver.Table.{Table, insert}
use sq.Seglog.Frame.{read_frame}
use sq.Seglog.Frames.{read_frame-brief}
use sq.Seglog.Scan.{
  Codec, CodecLaws, Recovery, Replay, Segment, cut_entries, keep_file, recovered, scan_all,
  scan_segment, scanned, take_entry, take_hard,
}
use sq.Seglog.Replay.{
  IsWritten, Record, apply, apply_all, entry_record, hard_record, scan_segment-written,
}

append-not_empty : {A : Type 0} (xs : List A) (x : A) → xs ++ (x ∷ []) ≢ []
append-not_empty [] x e = cc
append-not_empty (y ∷ ys) x e = cc

module _ {E H : Type 0} (c : Codec E H) where
  -- What a record does to the log: a hard state replaces the last one, an entry takes the place of
  -- every entry from its index on.
  unfoldable pub step : Record E H → Replay E H → Replay E H
  step (hard_record h) r = record r { hs = some h }
  step (entry_record e) r = record {
    hs = r.hs;
    ents = e ∷ (if leb (c.index e) r.last_index then cut_entries c (c.index e) r.ents else r.ents);
    last_index = c.index e;
  }

  unfoldable pub replay_all : List (Record E H) → Replay E H → Replay E H
  replay_all [] r = r
  replay_all (x ∷ xs) r = replay_all xs (step x r)

  pub replay_all-append :
      (xs ys : List (Record E H)) (r : Replay E H)
      → replay_all (xs ++ ys) r ≡ replay_all ys (replay_all xs r)
  unfolding replay_all
  replay_all-append [] ys r = refl
  replay_all-append (x ∷ xs) ys r = replay_all-append xs ys (step x r)

  pub apply_all-replay :
      (xs : List (Record E H)) (s : Segment E H)
      → (apply_all c xs s).replay ≡ replay_all xs s.replay
  unfolding replay_all apply_all apply step take_hard take_entry
  apply_all-replay [] s = refl
  apply_all-replay (hard_record h ∷ xs) s = apply_all-replay xs (take_hard c h s)
  apply_all-replay (entry_record e ∷ xs) s = apply_all-replay xs (take_entry c e s)

  -- The closed segments hold the records, each segment its share.
  abbrev pub IsClosed : Table (List ℕ) → List (Record E H) → Type 0
  IsClosed [] xs = xs ≡ []
  IsClosed ((seq, content) ∷ closed) xs =
      (ys : List (Record E H)) × (zs : List (Record E H)) × (xs ≡ ys ++ zs)
      × IsWritten c ys content
      × IsClosed closed zs

  -- What Open finds.
  abbrev pub Recovers : Recovery E H → Replay E H → Table (List ℕ) → ℕ → List ℕ → Type 0
  Recovers rec r closed seq content =
      (maxes : Table ℕ) × (rec ≡ recovered r maxes closed seq content (length content))

  module _ (laws : CodecLaws c) where
    scan_only :
        (content : List ℕ) (seq off : ℕ) (r : Replay E H) (maxes : Table ℕ) (s : Segment E H)
        → scan_segment c (suc (length content)) true content 0 (record { replay = r; max = 0 })
          ≡ scanned s off
        → scan_all c ((seq, content) ∷ []) r maxes
          ≡ recovered s.replay (insert seq s.max maxes) [] seq (take off content) off
    unfolding scan_all
    scan_only content seq off r maxes s e = rw (scan_all, e) refl

    scan_last :
        (xs : List (Record E H)) (bs tail : List ℕ) (seq : ℕ) (r : Replay E H) (maxes : Table ℕ)
        → IsWritten c xs bs
        → read_frame c.update tail ≡ none
        → Recovers (scan_all c ((seq, bs ++ tail) ∷ []) r maxes) (replay_all xs r) [] seq bs
    scan_last xs bs tail seq r maxes w torn =
        let s : Segment E H = record { replay = r; max = 0 } in
        let end = apply_all c xs s in
        let all = replay_all xs r in
        let known = insert seq end.max maxes in
        (
          known,
          scan_only (bs ++ tail) seq (length bs) r maxes end (
                scan_segment-written c laws xs bs tail (suc (length (bs ++ tail))) true 0 s w torn
                  (inl refl) (omega arith)
                ∙ ap (scanned end) (omega arith))
              ∙ ap
                  (λ (x : Replay E H).
                    recovered x known [] seq (take (length bs) (bs ++ tail)) (length bs))
                  (apply_all-replay xs s)
              ∙ ap (λ (l : List ℕ). recovered all known [] seq l (length bs))
                  (take-append_length bs tail (length bs) refl),
        )

    -- A closed segment is read whole, and the loop goes on.
    scan_more :
        (xs : List (Record E H)) (bs : List ℕ) (seq : ℕ) (next : ℕ × List ℕ) (more : Table (List ℕ))
        (r : Replay E H) (maxes : Table ℕ)
        → IsWritten c xs bs
        → scan_all c ((seq, bs) ∷ (next ∷ more)) r maxes
          ≡ keep_file
              (seq, bs)
              (scan_all c
                (next ∷ more)
                (replay_all xs r)
                (insert seq (apply_all c xs (record { replay = r; max = 0 })).max maxes))
    unfolding scan_all
    scan_more xs bs seq next more r maxes w =
        let s : Segment E H = record { replay = r; max = 0 } in
        let read : scan_segment c (suc (length bs)) false bs 0 s
            ≡ scanned (apply_all c xs s) (0 + length bs) =
          subst
            (λ (l : List ℕ).
              scan_segment c (suc (length l)) false l 0 s
              ≡ scanned (apply_all c xs s) (0 + length bs))
            (append-nil bs)
            (scan_segment-written c laws xs bs [] (suc (length (bs ++ []))) false 0 s w
              (read_frame-brief c.update [] (omega arith)) (inr refl) (omega arith)) in
        rw (scan_all, read, apply_all-replay xs s) refl

    keep_file-Recovers :
        (f : ℕ × List ℕ) (rec : Recovery E H) (r : Replay E H) (closed : Table (List ℕ)) (seq : ℕ)
        (bs : List ℕ)
        → Recovers rec r closed seq bs
        → Recovers (keep_file f rec) r (f ∷ closed) seq bs
    unfolding keep_file
    keep_file-Recovers f rec r closed seq bs (m, e) = (m, ap (keep_file f) e)

    pub scan_all-written :
        (closed : Table (List ℕ)) (xs ys : List (Record E H)) (bs tail : List ℕ) (seq : ℕ)
        (r : Replay E H) (maxes : Table ℕ)
        → IsClosed closed xs
        → IsWritten c ys bs
        → read_frame c.update tail ≡ none
        → Recovers
            (scan_all c (closed ++ ((seq, bs ++ tail) ∷ [])) r maxes)
            (replay_all (xs ++ ys) r)
            closed
            seq
            bs
    scan_all-written [] xs ys bs tail seq r maxes w v torn =
        rw w (scan_last ys bs tail seq r maxes v torn)
    scan_all-written ((n, content) ∷ closed) xs ys bs tail seq r maxes (x1, x2, e, w1, w) v torn =
        let r1 = replay_all x1 r in
        let maxes1 = insert n (apply_all c x1 (record { replay = r; max = 0 })).max maxes in
        let whole : replay_all (x2 ++ ys) r1 ≡ replay_all (xs ++ ys) r =
          sym (replay_all-append x1 (x2 ++ ys) r)
          ∙ ap (λ (l : List (Record E H)). replay_all l r)
              (sym (append_assoc x1 x2 ys) ∙ ap (λ (l : List (Record E H)). l ++ ys) (sym e)) in
        let rest = scan_all-written closed x2 ys bs tail seq r1 maxes1 w v torn in
        let more = closed ++ ((seq, bs ++ tail) ∷ []) in
        rw (sym whole) (elim (List-cases more) [
          | inl nothing ↦ absurd (append-not_empty closed (seq, bs ++ tail) nothing)
          | inr (next, files, same) ↦
              rw (same, scan_more x1 content n next files r maxes w1)
                (keep_file-Recovers (n, content) (scan_all c (next ∷ files) r1 maxes1)
                  (replay_all (x2 ++ ys) r1) closed seq bs
                  (subst
                    (λ (l : Table (List ℕ)).
                      Recovers (scan_all c l r1 maxes1) (replay_all (x2 ++ ys) r1) closed seq bs)
                    same rest))
        ])
