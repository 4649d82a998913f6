-- ===== src/Seglog/Durability.antt =====
-- What a log promises: what Append took is there at the next Open, and after a write that stopped
-- half-way the next Open finds a beginning of it.
use sq.Common.{
  ℕ, zero, suc, ◌+◌, ◌-◌, ◌≡◌, ◌≢◌, refl, ap, sym, ◌∙◌, arith, Bool, true, false, not, List, [],
  ◌∷◌, ◌++◌, Option, none, some, length, take, append_assoc, append-nil, length-append, All, subst,
  Bool-cases, Option-cases, inl, inr, ltb, if◌then◌else◌, reverse, take-append, take-all, ltb→lt,
  none≢some,
}
use sq.Seglog.Frame.{read_frame, zeros, append_frame, rec_hard_state}
use sq.Seglog.Frames.{frame_of, length-frame_of, length-zeros, read_frame-torn, read_frame-brief}
use sq.Seglog.Scan.{Codec, CodecLaws}
use sq.Seglog.Replay.{IsWritten, Record, hard_record, type_of}
use sq.Seglog.Live.{live, last_hard, replay_all-live}
use sq.Seglog.Log.{
  AppendIo, Log, OpenIo, Outcome, alloc_error, append, assemble, done, erred, files, maybe_rotate,
  new_segment, note_last, open_log, opened, repeat_hs, sync_active, write_active, write_at,
  write_buf, ◌>>◌,
}
use sq.Seglog.Disk.{Fits, IsWritten-append, assemble-IsWritten, records, write_at-spare}
use sq.Seglog.Sound.{Holds, IsLog, IsOnDisk, OnDone}
use sq.Seglog.Appending.{append-Holds}
use sq.Seglog.Opening.{
  IsOnDisk-IsReadable, IsReadable, Opens, open_log-IsReadable, prealloc_active-done,
}

module _ {E H : Type 0} (c : Codec E H) where
  Holds-Opens :
      CodecLaws c
      → (max : ℕ) (io : OpenIo) (l : Log H) (xs : List (Record E H)) → Holds c xs l
      → io.works ≡ true
      → io.allocates ≢ alloc_error
      → (l' : Log H) × (open_log c max io (files l) ≡ opened l' (reverse (live c xs)))
        × (l'.last_hs ≡ last_hard c none xs)
  Holds-Opens laws max io l xs (zs, k, e) works allocates =
      let (l', read, hs, sound) =
        open_log-IsReadable c laws max io l zs (IsOnDisk-IsReadable c l zs k.disk) works
          allocates in
      let z = replay_all-live c zs in
      let x = replay_all-live c xs in
      (
        l',
        read ∙ ap (λ (es : List E). opened l' (reverse es)) (sym z.0 ∙ ap (λ r. r.ents) e ∙ x.0),
        hs ∙ sym z.1 ∙ ap (λ r. r.hs) e ∙ x.1,
      )

  -- If each record that Append takes has at most 64 MiB with its type, and so has every hard state,
  -- and Append returns without an error, the next Open, if its system calls work, returns the entries
  -- that no later write went over, of those that the log held and those that Append took, and the
  -- last of their hard states.
  pub append-Opens :
      CodecLaws c
      → ((h : H) → Fits c (hard_record h))
      → (max : ℕ) (io : AppendIo) (io2 : OpenIo) (hs : Option H) (ents : List E) (sync : Bool)
        (l l1 : Log H) (xs : List (Record E H))
      → All (Fits c) (records c hs ents)
      → IsLog c l xs
      → append c max io hs ents sync l ≡ done l1
      → io2.works ≡ true
      → io2.allocates ≢ alloc_error
      → (l' : Log H) × (open_log c max io2 (files l1)
          ≡ opened l' (reverse (live c (xs ++ records c hs ents))))
        × (l'.last_hs ≡ last_hard c none (xs ++ records c hs ents))
  append-Opens laws small max io io2 hs ents sync l l1 xs fits k e works allocates =
      Holds-Opens laws max io2 l1 (xs ++ records c hs ents)
        (subst (OnDone (Holds c (xs ++ records c hs ents))) e
          (append-Holds c small laws max io hs ents sync l xs fits k))
        works allocates

  -- A beginning of the frames is the frames of a beginning, and then no frame.
  take-IsWritten :
      (ys : List (Record E H)) (buf : List ℕ) (n : ℕ)
      → IsWritten c ys buf
      → (m : ℕ) × (bytes : List ℕ) × (tail : List ℕ) × (take n buf ≡ bytes ++ tail)
        × IsWritten c (take m ys) bytes
        × (read_frame c.update tail ≡ none)
  take-IsWritten [] buf n w =
      (0, [], [], ap (take n) w ∙ nothing n, refl, read_frame-brief c.update [] (omega arith))
    where
      nothing : (k : ℕ) → take {A = ℕ} k [] ≡ []
      nothing zero = refl
      nothing (suc k) = refl
  take-IsWritten (y ∷ ys) buf n (p, more, e, fits, shape, w) =
      let frame = frame_of c.update (type_of c y) p in
      let size : length frame ≡ 9 + length p = length-frame_of c.update (type_of c y) p in
      let cut : take n buf ≡ take n frame ++ take (n - length frame) more =
        ap (take n) shape ∙ take-append n frame more in
      elim (Bool-cases (ltb n (9 + length p))) [
        | inl short ↦ (
          0,
          [],
          take n frame,
          cut
              ∙ ap (λ (k : ℕ). take n frame ++ take k more) {x = n - length frame} {y = 0}
                  (ground arith)
              ∙ append-nil (take n frame),
          refl,
          read_frame-torn c.update (type_of c y) p n fits (ltb→lt n (9 + length p) short),
        )
        | inr long ↦
            let (m, bytes, tail, e2, w2, torn) = take-IsWritten ys more (n - length frame) w in
            (
              suc m,
              frame ++ bytes,
              tail,
              cut
                  ∙ ap (λ (l : List ℕ). l ++ take (n - length frame) more)
                      (take-all n frame (ground arith))
                  ∙ ap (◌++◌ frame) e2
                  ∙ sym (append_assoc frame bytes tail),
              (p, bytes, e, fits, refl, w2),
              torn,
            )
      ]

  stopped-IsReadable :
      (l : Log H) (xs ys : List (Record E H)) (buf : List ℕ) (n : ℕ)
      → IsOnDisk c l xs
      → l.active_size ≡ length l.active_data
      → IsWritten c ys buf
      → (m : ℕ) × IsReadable c
          (record l { active_data = write_at l.active_size (take n buf) l.active_data })
          (xs ++ take m ys)
  unfolding zeros
  stopped-IsReadable l xs ys buf n d full w =
      let (m, bytes, tail, e, written, torn) = take-IsWritten ys buf n w in
      let none_left : d.spare ≡ 0 = omega (
        arith,
        d.size,
        full,
        ap length d.content,
        length-append d.bytes (zeros d.spare),
        length-zeros d.spare,
      ) in
      (
        m,
        record {
          earlier = d.earlier;
          later = d.later ++ take m ys;
          bytes = d.bytes ++ bytes;
          tail = tail;
          parts =
              ap (λ (x : List (Record E H)). x ++ take m ys) d.parts
              ∙ append_assoc d.earlier d.later (take m ys);
          before = d.before;
          now = IsWritten-append c d.later (take m ys) d.bytes bytes d.now written;
          content =
              ap (λ (k : ℕ). write_at k (take n buf) l.active_data) d.size
              ∙ ap (write_at (length d.bytes) (take n buf)) d.content
              ∙ write_at-spare d.bytes (take n buf) d.spare
              ∙ ap (λ (k : ℕ). (d.bytes ++ take n buf) ++ zeros k) {y = 0} (omega arith)
              ∙ append-nil (d.bytes ++ take n buf)
              ∙ ap (◌++◌ d.bytes) e
              ∙ sym (append_assoc d.bytes bytes tail);
          torn = torn;
        },
      )

  -- If the write of Append stops after n bytes, on a segment that is not preallocated, of records of
  -- at most 64 MiB with their type, Append returns an error, and the next Open, if its system calls
  -- work, finds what the log held and a beginning of the records.
  pub append_stopped-Opens :
      CodecLaws c
      → (max : ℕ) (io : AppendIo) (io2 : OpenIo) (hs : Option H) (ents : List E) (sync : Bool)
        (l : Log H) (xs : List (Record E H)) (b : ℕ) (bs : List ℕ) (n : ℕ)
      → All (Fits c) (records c hs ents)
      → IsLog c l xs
      → l.active ≡ true
      → l.active_size ≡ length l.active_data
      → assemble c hs ents ≡ some (b ∷ bs)
      → io.fails_after ≡ some n
      → io2.works ≡ true
      → io2.allocates ≢ alloc_error
      → (l1 : Log H) × (m : ℕ) × (append c max io hs ents sync l ≡ erred l1)
        × Opens c max io2 l1 (xs ++ take m (records c hs ents))
  unfolding append write_buf write_active
  append_stopped-Opens laws max io io2 hs ents sync l xs b bs n fits k active full e stops works
        allocates =
      let (m, readable) =
        stopped-IsReadable l xs (records c hs ents) (b ∷ bs) n k.disk full
          (assemble-IsWritten c laws hs ents (b ∷ bs) fits e) in
      (
        record l { active_data = write_at l.active_size (take n (b ∷ bs)) l.active_data },
        m,
        simp (active, e, stops),
        open_log-IsReadable c laws max io2 _ (xs ++ take m (records c hs ents)) readable works
            allocates,
      )

  -- Every system call of an Append succeeds.
  pub record IsFine (io : AppendIo) : Type 0 where
    pub writes : io.fails_after ≡ none
    pub syncs : io.syncs ≡ true
    pub truncates : io.rotation.truncates ≡ true
    pub syncs_old : io.rotation.syncs ≡ true
    pub closes : io.rotation.closes ≡ true
    pub creates : io.rotation.creates ≡ true
    pub dir_syncs : io.rotation.dir_syncs ≡ true
    pub allocates : io.rotation.allocates ≢ alloc_error
    pub writes_hs : io.rotation.fails_after ≡ none
    pub hs_syncs : io.rotation.hs_syncs ≡ true

  abbrev Done : Outcome H → Type 0
  Done o = (l : Log H) × (o ≡ done l)

  Done-then :
      (o : Outcome H) (f : Log H → Outcome H) → Done o → ((l : Log H) → Done (f l)) → Done (o >> f)
  Done-then o f (l, e) k = let (l2, e2) = k l in (l2, ap (λ (x : Outcome H). x >> f) e ∙ e2)

  sync_active-Done : (b : Bool) (l : Log H) → b ≡ true → Done (sync_active b l)
  unfolding sync_active
  sync_active-Done b l e = (l, rw e refl)

  write_active-Done :
      (fails : Option ℕ) (buf : List ℕ) (l : Log H) → fails ≡ none → Done (write_active fails buf l)
  unfolding write_active
  write_active-Done none buf l e = (_, refl)
  write_active-Done (some n) buf l e = absurd (none≢some (sym e))

  write_buf-Done :
      (fails : Option ℕ) (buf : List ℕ) (l : Log H) → fails ≡ none → Done (write_buf fails buf l)
  unfolding write_buf
  write_buf-Done fails [] l e = (l, refl)
  write_buf-Done fails (b ∷ bs) l e = write_active-Done fails (b ∷ bs) l e

  module _ (io : AppendIo) (fine : IsFine io) (marshals : (h : H) → c.marshal_hard h ≢ none) where
    skip : (b : Bool) (x y : Outcome H) → b ≡ true → Done y → Done (if not b then x else y)
    skip b x y e k = rw e k

    write_hs-Done :
        (h : H) (o : Option (List ℕ)) (l : Log H)
        → c.marshal_hard h ≡ o
        → Done (elim o [
          | none ↦ erred l
          | some payload ↦
              write_active io.rotation.fails_after
                (append_frame c.update [] rec_hard_state payload)
                l
              >> sync_active io.rotation.hs_syncs
        ])
    write_hs-Done h none l e = absurd (marshals h e)
    write_hs-Done h (some p) l e =
        Done-then
          (write_active io.rotation.fails_after (append_frame c.update [] rec_hard_state p) l)
          (sync_active io.rotation.hs_syncs)
          (write_active-Done io.rotation.fails_after (append_frame c.update [] rec_hard_state p) l
            fine.writes_hs)
          (λ l'. sync_active-Done io.rotation.hs_syncs l' fine.hs_syncs)

    repeat_hs-Done : (l : Log H) → Done (repeat_hs c io.rotation l)
    unfolding repeat_hs
    repeat_hs-Done l = elim (Option-cases l.last_hs) [
      | inl e ↦ (l, simp (repeat_hs, e))
      | inr (h, e) ↦
          let (l2, e2) = write_hs-Done h (c.marshal_hard h) l refl in (l2, simp (repeat_hs, e) e2)
    ]

    new_segment-Done : (max : ℕ) (l : Log H) → Done (new_segment c max io.rotation l)
    unfolding new_segment
    new_segment-Done max l = skip io.rotation.dir_syncs _ _ fine.dir_syncs (
        Done-then _ _
          (Done-then _ (repeat_hs c io.rotation)
            (prealloc_active-done c max io.rotation.allocates _ fine.allocates) repeat_hs-Done)
          (λ l'. (_, refl)))

    maybe_rotate-Done : (max : ℕ) (l : Log H) → Done (maybe_rotate c max io.rotation l)
    unfolding maybe_rotate
    maybe_rotate-Done max l = elim (Bool-cases (ltb l.active_size max)) [
      | inl y ↦ (l, rw y refl)
      | inr y ↦ rw y (
          skip io.rotation.truncates _ _ fine.truncates (
            skip io.rotation.syncs _ _ fine.syncs_old (
              skip io.rotation.closes _ _ fine.closes
                (skip io.rotation.creates _ _ fine.creates (new_segment-Done max _)))))
    ]

  -- On a log that is open, if every system call succeeds, the records can be marshalled and so can
  -- every hard state, Append returns without an error.
  pub append-done :
      (max : ℕ) (io : AppendIo) (hs : Option H) (ents : List E) (sync : Bool) (l : Log H)
      (buf : List ℕ)
      → l.active ≡ true
      → IsFine io
      → assemble c hs ents ≡ some buf
      → ((h : H) → c.marshal_hard h ≢ none)
      → (l1 : Log H) × (append c max io hs ents sync l ≡ done l1)
  unfolding append
  append-done max io hs ents sync l buf active fine e marshals = rw e (
      skip io fine marshals l.active _ _ active (
        Done-then _ (maybe_rotate c max io.rotation)
          (Done-then (write_buf io.fails_after buf l) _
            (write_buf-Done io.fails_after buf l fine.writes)
            (λ l'. synced sync (note_last c hs ents l')))
          (maybe_rotate-Done io fine marshals max)))
    where
      synced : (b : Bool) (l2 : Log H) → Done (if b then sync_active io.syncs l2 else done l2)
      synced true l2 = sync_active-Done io.syncs l2 fine.syncs
      synced false l2 = (l2, refl)
