-- ===== src/Seglog/Disk.antt =====
-- What the files of a log hold: the frames of the records it was given.
use sq.Common.{
  ℕ, zero, suc, ◌+◌, ◌-◌, ◌≤◌, ◌≡◌, refl, ap, sym, ◌∙◌, arith, List, [], ◌∷◌, ◌++◌, Option, none,
  some, length, take, drop, append_assoc, append-nil, length-append, map, All, subst,
  take-append_length, drop-append_length, drop-drop, bind-some, Option-cases, inl, inr, some-inj,
  none≢some,
}
use sq.Seglog.Frame.{
  append_frame, append_frame_marshal, max_frame_len, zeros, rec_entry, rec_hard_state,
}
use sq.Seglog.Frames.{frame_of, append_frame_marshal_lem, append_frame_lem}
use sq.Seglog.Scan.{Codec, CodecLaws}
use sq.Seglog.Replay.{IsWritten, Record, entry_record, hard_record, payload_of, type_of}
use sq.Seglog.Log.{assemble, assemble_entries, resize, write_at}

drop-zeros : (n k : ℕ) → drop n (zeros k) ≡ zeros (k - n)
unfolding zeros
drop-zeros zero k = ap zeros (omega arith)
drop-zeros (suc n) zero = ap zeros {x = 0} (omega arith)
drop-zeros (suc n) (suc k) = drop-zeros n k ∙ ap zeros (omega arith)

no_zeros : (n : ℕ) → n ≡ 0 → zeros n ≡ []
no_zeros n e = rw e (unfold zeros in refl)

-- A write at the end of what is written takes the place of spare zeros.
pub write_at-spare :
    (bytes buf : List ℕ) (spare : ℕ)
    → write_at (length bytes) buf (bytes ++ zeros spare)
      ≡ (bytes ++ buf) ++ zeros (spare - length buf)
unfolding write_at
write_at-spare bytes buf spare =
    let content = bytes ++ zeros spare in
    let before : take (length bytes) content ≡ bytes =
      take-append_length bytes (zeros spare) (length bytes) refl in
    let gap : zeros (length bytes - length content) ≡ [] =
      no_zeros (length bytes - length content) (omega (arith, length-append bytes (zeros spare))) in
    let after : drop (length bytes + length buf) content ≡ zeros (spare - length buf) =
      sym (drop-drop (length buf) (length bytes) content)
      ∙ ap (drop (length buf)) (drop-append_length bytes (zeros spare) (length bytes) refl)
      ∙ drop-zeros (length buf) spare in
    rw (before, gap, after)
      (ap (λ (l : List ℕ). l ++ (buf ++ zeros (spare - length buf))) (append-nil bytes)
        ∙ sym (append_assoc bytes buf (zeros (spare - length buf))))

pub resize-spare :
    (bytes : List ℕ) (spare : ℕ) → resize (length bytes) (bytes ++ zeros spare) ≡ bytes
unfolding resize
resize-spare bytes spare =
    let content = bytes ++ zeros spare in
    let before : take (length bytes) content ≡ bytes =
      take-append_length bytes (zeros spare) (length bytes) refl in
    let gap : zeros (length bytes - length content) ≡ [] =
      no_zeros (length bytes - length content) (omega (arith, length-append bytes (zeros spare))) in
    rw (before, gap) (append-nil bytes)

module _ {E H : Type 0} (c : Codec E H) where
  -- The records of one call of Append, in the order of their frames.
  unfoldable pub records : Option H → List E → List (Record E H)
  records none es = map entry_record es
  records (some h) es = hard_record h ∷ map entry_record es

  -- A frame has room for the record, once it is marshalled.
  abbrev pub Fits : Record E H → Type 0
  Fits x = (p : List ℕ) → payload_of c x ≡ some p → 1 + length p ≤ max_frame_len

  pub IsWritten-append :
      (xs ys : List (Record E H)) (a b : List ℕ)
      → IsWritten c xs a
      → IsWritten c ys b
      → IsWritten c (xs ++ ys) (a ++ b)
  IsWritten-append [] ys a b w v = rw w v
  IsWritten-append (x ∷ xs) ys a b (p, more, e, fits, shape, w) v = (
    p,
    more ++ b,
    e,
    fits,
    ap (λ (l : List ℕ). l ++ b) shape ∙ append_assoc (frame_of c.update (type_of c x) p) more b,
    IsWritten-append xs ys more b w v,
  )

  module _ (laws : CodecLaws c) where
    abbrev Framed : List ℕ → ℕ → List ℕ → Option (List ℕ) → Type 0
    Framed dst typ buf marshalled = append_frame_marshal c.update dst typ marshalled ≡ some buf

    nothing : (dst : List ℕ) (typ : ℕ) → append_frame_marshal c.update dst typ none ≡ none
    unfolding append_frame_marshal
    nothing dst typ = refl

    append-frame :
        (x : Record E H) (dst buf : List ℕ)
        → Fits x
        → append_frame_marshal c.update dst (type_of c x) (payload_of c x) ≡ some buf
        → (more : List ℕ) × (buf ≡ dst ++ more) × IsWritten c (x ∷ []) more
    append-frame x dst buf fits e = elim (Option-cases (payload_of c x)) [
      | inl n ↦
          absurd
            (none≢some (sym (nothing dst (type_of c x)) ∙ subst (Framed dst (type_of c x) buf) n e))
      | inr (p, ep) ↦
          let framed : append_frame c.update dst (type_of c x) p ≡ buf = some-inj (
            sym (append_frame_marshal_lem c.update laws.sums dst (type_of c x) p)
            ∙ subst (Framed dst (type_of c x) buf) ep e) in
          (
            frame_of c.update (type_of c x) p,
            sym framed ∙ append_frame_lem c.update dst (type_of c x) p,
            (p, [], ep, fits p ep, sym (append-nil (frame_of c.update (type_of c x) p)), refl),
          )
    ]

    pub assemble_entries-IsWritten :
        (es : List E) (dst buf : List ℕ)
        → All Fits (map entry_record es)
        → assemble_entries c es dst ≡ some buf
        → (more : List ℕ) × (buf ≡ dst ++ more) × IsWritten c (map entry_record es) more
    unfolding assemble_entries
    assemble_entries-IsWritten [] dst buf fits e =
        ([], sym (some-inj e) ∙ sym (append-nil dst), refl)
    assemble_entries-IsWritten (x ∷ es) dst buf (fit, fits) e =
        let (mid, em, rest) =
          bind-some (append_frame_marshal c.update dst rec_entry (c.marshal_entry x))
            (assemble_entries c es) buf e in
        let (a, ea, wa) =
          append-frame (entry_record x) dst mid fit (unfold payload_of type_of in em) in
        let (b, eb, wb) = assemble_entries-IsWritten es mid buf fits rest in
        (
          a ++ b,
          eb ∙ ap (λ (l : List ℕ). l ++ b) ea ∙ append_assoc dst a b,
          IsWritten-append (entry_record x ∷ []) (map entry_record es) a b wa wb,
        )

    pub assemble-IsWritten :
        (hs : Option H) (es : List E) (buf : List ℕ)
        → All Fits (records hs es)
        → assemble c hs es ≡ some buf
        → IsWritten c (records hs es) buf
    unfolding assemble records
    assemble-IsWritten none es buf fits e =
        let (more, em, w) = assemble_entries-IsWritten es [] buf fits e in
        subst (IsWritten c (map entry_record es)) (sym em) w
    assemble-IsWritten (some h) es buf (fit, fits) e =
        let (mid, em, rest) =
          bind-some (append_frame_marshal c.update [] rec_hard_state (c.marshal_hard h))
            (assemble_entries c es) buf e in
        let (a, ea, wa) =
          append-frame (hard_record h) [] mid fit (unfold payload_of type_of in em) in
        let (b, eb, wb) = assemble_entries-IsWritten es mid buf fits rest in
        subst (IsWritten c (hard_record h ∷ map entry_record es))
          (ap (λ (l : List ℕ). l ++ b) (sym ea) ∙ sym eb)
          (IsWritten-append (hard_record h ∷ []) (map entry_record es) a b wa wb)
