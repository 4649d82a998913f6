-- ===== src/Seglog/Replay.antt =====
-- What the scan reads back: the records that were written, one after the other, up to the first
-- place that holds no frame.
use sq.Common.{
  ℕ, zero, suc, ◌+◌, ◌≤◌, ◌<◌, ◌≡◌, ◌≢◌, refl, ap, sym, ◌∙◌, arith, Bool, true, false, List, [],
  ◌∷◌, ◌++◌, Option, none, some, length, take, drop, ltb, ◌==◌, ◌||◌, ◌-◌, if◌then◌else◌, ◌>>=◌,
  append_assoc, length-append, drop-append_length, ◌⊎◌, inl, inr, length-drop, bind-some, some-inj,
  none≢some, Option-cases,
}
use sq.Store.Bytes.{uint32}
use sq.Seglog.Frame.{Frame, read_frame, read_body, rec_entry, rec_hard_state, max_frame_len}
use sq.Seglog.Frames.{read_frame-brief, frame_of, length-frame_of, read_frame-frame_of}
use sq.Seglog.Scan.{
  Codec, CodecLaws, Segment, corrupt, scan_segment, scanned, starved, read_record, take_entry,
  take_hard, take_record,
}

-- A record of the log: a hard state or an entry.
pub data Record (E H : Type 0) : Type 0 where
  hard_record : H → Record E H
  entry_record : E → Record E H

if-some : {A : Type 0} (b : Bool) (x y : A) → (if b then some x else none) ≡ some y → x ≡ y
if-some true x y e = some-inj e
if-some false x y e = absurd (none≢some e)

if-none :
    {A : Type 0} (b : Bool) (o : Option A) (y : A) → (if b then none else o) ≡ some y → o ≡ some y
if-none true o y e = absurd (none≢some e)
if-none false o y e = e

read_body-size :
    (update : ℕ → List ℕ → ℕ) (ln : ℕ) (sum body : List ℕ) (f : Frame)
    → read_body update ln sum body ≡ some f
    → 8 ≤ f.size
unfolding read_body
read_body-size update ln sum [] f e = absurd (none≢some e)
read_body-size update ln sum (t ∷ p) f e = omega (
  arith,
  ap (λ (g : Frame). g.size)
      (if-some (update 0 (t ∷ p) == uint32 sum) (record { typ = t; payload = p; size = 8 + ln }) f
        e),
)

read_frame-size :
    (update : ℕ → List ℕ → ℕ) (buf : List ℕ) (f : Frame)
    → read_frame update buf ≡ some f
    → 8 ≤ f.size
unfolding read_frame
read_frame-size update buf f e =
    let ln = uint32 (take 4 buf) in
    let body = take ln (drop 8 buf) in
    let bad = ln == 0 || ltb max_frame_len ln || ltb (length buf - 8) ln in
    let read = read_body update ln (take 4 (drop 4 buf)) body in
    read_body-size update ln (take 4 (drop 4 buf)) body f
      (if-none bad read f (if-none (ltb (length buf) 8) (if bad then none else read) f e))

module _ {E H : Type 0} (c : Codec E H) where
  unfoldable pub payload_of : Record E H → Option (List ℕ)
  payload_of (hard_record h) = c.marshal_hard h
  payload_of (entry_record e) = c.marshal_entry e

  unfoldable pub type_of : Record E H → ℕ
  type_of (hard_record h) = rec_hard_state
  type_of (entry_record e) = rec_entry

  unfoldable pub apply : Record E H → Segment E H → Segment E H
  apply (hard_record h) s = take_hard c h s
  apply (entry_record e) s = take_entry c e s

  unfoldable pub apply_all : List (Record E H) → Segment E H → Segment E H
  apply_all [] s = s
  apply_all (r ∷ rs) s = apply_all rs (apply r s)

  -- The bytes are the frames of the records.
  abbrev pub IsWritten : List (Record E H) → List ℕ → Type 0
  IsWritten [] bs = bs ≡ []
  IsWritten (r ∷ rs) bs =
      (p : List ℕ) × (more : List ℕ) × (payload_of r ≡ some p)
      × (1 + length p ≤ max_frame_len)
      × (bs ≡ frame_of c.update (type_of r) p ++ more)
      × IsWritten rs more

  read_record-size :
      (buf : List ℕ) (s s' : Segment E H) (n : ℕ) → read_record c buf s ≡ some (n, s') → 8 ≤ n
  unfolding read_record
  read_record-size buf s s' n e =
      let (f, ef, rest) =
        bind-some (read_frame c.update buf) (λ f. take_record c f s >>= λ s2. some (f.size, s2))
          (n, s') e in
      let (s2, es, same) = bind-some (take_record c f s) (λ s2. some (f.size, s2)) (n, s') rest in
      let long : 8 ≤ f.size = read_frame-size c.update buf f ef in
      omega (arith, ap (λ (x : ℕ × Segment E H). x.0) (some-inj same))

  read_record-none :
      (buf : List ℕ) (s : Segment E H) → read_frame c.update buf ≡ none → read_record c buf s ≡ none
  unfolding read_record
  read_record-none buf s e = rw (read_record, e) refl

  -- A step of the loop, and where it stops.
  scan-step :
      (fuel : ℕ) (last : Bool) (buf : List ℕ) (off n : ℕ) (s s' : Segment E H)
      → read_record c buf s ≡ some (n, s')
      → scan_segment c (suc fuel) last buf off s
        ≡ scan_segment c fuel last (drop n buf) (off + n) s'
  unfolding scan_segment
  scan-step fuel last [] off n s s' e =
      absurd
        (none≢some (sym (read_record-none [] s (read_frame-brief c.update [] (omega arith))) ∙ e))
  scan-step fuel last (b ∷ bs) off n s s' e = rw (scan_segment, e) refl

  scan-stop :
      (fuel : ℕ) (last : Bool) (b : ℕ) (bs : List ℕ) (off : ℕ) (s : Segment E H)
      → read_record c (b ∷ bs) s ≡ none
      → scan_segment c (suc fuel) last (b ∷ bs) off s ≡ (if last then scanned s off else corrupt)
  unfolding scan_segment
  scan-stop fuel last b bs off s e = rw (scan_segment, e) refl

  -- One step more than there are bytes is enough for the scan of a segment, with either flag and
  -- whatever the bytes are.
  pub scan_segment-terminates :
      (fuel : ℕ) (last : Bool) (buf : List ℕ) (off : ℕ) (s : Segment E H)
      → length buf < fuel
      → scan_segment c fuel last buf off s ≢ starved
  unfolding scan_segment
  scan_segment-terminates zero last buf off s h = absurd (omega arith)
  scan_segment-terminates (suc fuel) last [] off s h = λ e. cc
  scan_segment-terminates (suc fuel) last (b ∷ bs) off s h =
      elim (Option-cases (read_record c (b ∷ bs) s)) [
        | inl e ↦ rw (scan-stop fuel last b bs off s e) (stopped last)
        | inr ((n, s'), e) ↦ rw (scan-step fuel last (b ∷ bs) off n s s' e) (
            scan_segment-terminates fuel last (drop n (b ∷ bs)) (off + n) s'
              (omega (arith, length-drop n (b ∷ bs), read_record-size (b ∷ bs) s s' n e)))
      ]
    where
      stopped : (l : Bool) → (if l then scanned s off else corrupt) ≢ starved
      stopped true e = cc
      stopped false e = cc

  module _ (laws : CodecLaws c) where
    read_record-written :
        (r : Record E H) (p rest : List ℕ) (s : Segment E H)
        → payload_of r ≡ some p
        → 1 + length p ≤ max_frame_len
        → read_record c (frame_of c.update (type_of r) p ++ rest) s ≡ some (9 + length p, apply r s)
    unfolding payload_of type_of apply read_record take_hard take_record
    read_record-written (hard_record h) p rest s e fits =
        rw
          (
            read_record,
            read_frame-frame_of c.update laws.sums rec_hard_state p rest fits,
            take_record,
            laws.hard_back h p e,
          )
          refl
    read_record-written (entry_record x) p rest s e fits =
        rw
          (
            read_record,
            read_frame-frame_of c.update laws.sums rec_entry p rest fits,
            take_record,
            laws.entry_back x p e,
          )
          refl

    pub scan_segment-written :
        (rs : List (Record E H)) (bs tail : List ℕ) (fuel : ℕ) (last : Bool) (off : ℕ)
        (s : Segment E H)
        → IsWritten rs bs
        → read_frame c.update tail ≡ none
        → (last ≡ true) ⊎ (tail ≡ [])
        → length (bs ++ tail) < fuel
        → scan_segment c fuel last (bs ++ tail) off s ≡ scanned (apply_all rs s) (off + length bs)
    unfolding apply_all
    scan_segment-written rs bs tail zero last off s w torn end h = absurd (omega arith)
    scan_segment-written [] bs [] (suc fuel) last off s w torn end h =
        rw w (unfold scan_segment in ap (scanned s) (omega arith))
    scan_segment-written [] bs (b ∷ tail) (suc fuel) last off s w torn end h = rw w (
        scan-stop fuel last b tail off s (read_record-none (b ∷ tail) s torn)
        ∙ only_last last end
        ∙ ap (scanned s) (omega arith))
      where
        only_last :
            (l : Bool)
            → (l ≡ true) ⊎ (b ∷ tail ≡ [])
            → (if l then scanned s off else corrupt) ≡ scanned s off
        only_last true k = refl
        only_last false (inl k) = cc
        only_last false (inr k) = cc
    scan_segment-written (r ∷ rs) bs tail (suc fuel) last off s (p, more, e, fits, shape, w) torn
          end h =
        let frame = frame_of c.update (type_of r) p in
        let size : length frame ≡ 9 + length p = length-frame_of c.update (type_of r) p in
        let whole : bs ++ tail ≡ frame ++ (more ++ tail) =
          ap (λ (l : List ℕ). l ++ tail) shape ∙ append_assoc frame more tail in
        let total : length bs ≡ 9 + length p + length more =
          ap length shape ∙ length-append frame more ∙ omega arith in
        rw whole (
          scan-step fuel last (frame ++ (more ++ tail)) off (9 + length p) s (apply r s)
            (read_record-written r p (more ++ tail) s e fits)
          ∙ ap (λ (l : List ℕ). scan_segment c fuel last l (off + (9 + length p)) (apply r s))
              (drop-append_length frame (more ++ tail) (9 + length p) (sym size))
          ∙ scan_segment-written rs more tail fuel last (off + (9 + length p)) (apply r s) w torn
              end (omega (arith, length-append bs tail, length-append more tail))
          ∙ ap (scanned (apply_all rs (apply r s))) (omega arith))
