-- ===== src/Seglog/Acknowledged.antt =====
-- What an Append does whose system calls all work: it returns, the next Open finds what it took,
-- and it has rotated and synced as the code says.
use sq.Common.{
  ℕ, ◌+◌, ◌%◌, ◌^◌, ◌≡◌, ◌≢◌, refl, ap, subst, arith, Bool, true, false, not, List, [], ◌∷◌, ◌++◌,
  Option, none, some, length, All, Bool-cases, Option-cases, inl, inr, ltb, if◌then◌else◌, reverse,
}
use sq.Seglog.Frame.{append_frame, rec_hard_state}
use sq.Seglog.Frame.{append_frame, rec_hard_state}
use sq.Seglog.Frame.{append_frame, rec_hard_state}
use sq.Seglog.Scan.{Codec, CodecLaws}
use sq.Seglog.Replay.{Record, hard_record}
use sq.Seglog.Live.{last_hard, live}
use sq.Seglog.Log.{
  Allocation, AppendIo, Log, OpenIo, RotateIo, alloc_error, allocated, append, assemble, done,
  files, maybe_rotate, new_segment, note_last, open_log, opened, prealloc_active, repeat_hs,
  sync_active, unsupported, write_active, write_buf,
}
use sq.Seglog.Disk.{Fits, records}
use sq.Seglog.Sound.{IsLog, OnDone, OnDone-if, OnDone-then, sync_active-OnDone}
use sq.Seglog.Durability.{IsFine, append-Opens, append-done}

module _ {H : Type 0} where
  -- The number of the segment that is written.
  abbrev Keeps : ℕ → Log H → Type 0
  Keeps n l = l.active_seq ≡ n

  write_active-Keeps :
      (n : ℕ) (fails : Option ℕ) (buf : List ℕ) (l : Log H)
      → Keeps n l
      → OnDone (Keeps n) (write_active fails buf l)
  unfolding write_active
  write_active-Keeps n none buf l h = h
  write_active-Keeps n (some k) buf l h = tt

  -- The segment is the same, and longer by the buffer.
  abbrev Grown : ℕ → ℕ → Log H → Type 0
  Grown seq size l = (l.active_seq ≡ seq) × (l.active_size ≡ size)

  write_buf-Grown :
      (fails : Option ℕ) (buf : List ℕ) (l : Log H)
      → OnDone (Grown l.active_seq (l.active_size + length buf)) (write_buf fails buf l)
  unfolding write_buf write_active
  write_buf-Grown fails [] l = (refl, omega arith)
  write_buf-Grown none (b ∷ bs) l = (refl, refl)
  write_buf-Grown (some n) (b ∷ bs) l = tt

module _ {E H : Type 0} (c : Codec E H) (max : ℕ) where
  prealloc_active-Keeps :
      (n : ℕ) (a : Allocation) (l : Log H)
      → Keeps n l
      → OnDone (Keeps n) (prealloc_active c max a l)
  unfolding prealloc_active
  prealloc_active-Keeps n allocated l h = h
  prealloc_active-Keeps n unsupported l h = h
  prealloc_active-Keeps n alloc_error l h = tt

  repeat_hs-Keeps :
      (io : RotateIo) (n : ℕ) (l : Log H) → l.active_seq ≡ n → OnDone (Keeps n) (repeat_hs c io l)
  unfolding repeat_hs
  repeat_hs-Keeps io n l h = elim (Option-cases l.last_hs) [
    | inl e ↦ rw (repeat_hs, e) h
    | inr (hs, e) ↦ elim (Option-cases (c.marshal_hard hs)) [
      | inl z ↦ rw (repeat_hs, e, z) tt
      | inr (p, ep) ↦
          rw (repeat_hs, e, ep)
            (OnDone-then (Keeps n) (Keeps n) _ (sync_active io.hs_syncs)
              (write_active-Keeps n io.fails_after (append_frame c.update [] rec_hard_state p) l h)
              (sync_active-OnDone c (Keeps n) io.hs_syncs))
    ]
  ]

  new_segment-Keeps :
      (io : RotateIo) (seq : ℕ) (l : Log H)
      → Keeps seq l
      → OnDone (Keeps ((seq + 1) % 2 ^ 64)) (new_segment c max io l)
  unfolding new_segment
  new_segment-Keeps io seq l same =
      let n = (seq + 1) % 2 ^ 64 in
      OnDone-if (Keeps n) (not io.dir_syncs) _ _ tt (
        OnDone-then (Keeps n) (Keeps n) _ _
          (OnDone-then (Keeps n) (Keeps n) _ (repeat_hs c io)
            (prealloc_active-Keeps n io.allocates _ (ap (λ k. (k + 1) % 2 ^ 64) same))
            (repeat_hs-Keeps io n))
          (λ l' h. h))

  -- The number of the segment after a write that leaves it with `size` bytes.
  abbrev pub next_seq : ℕ → ℕ → ℕ
  next_seq seq size = if ltb size max then seq else (seq + 1) % 2 ^ 64

  maybe_rotate-Keeps :
      (io : RotateIo) (seq size : ℕ) (l : Log H)
      → Grown seq size l
      → OnDone (Keeps (next_seq seq size)) (maybe_rotate c max io l)
  unfolding maybe_rotate
  maybe_rotate-Keeps io seq size l (same, grown) = elim (Bool-cases (ltb size max)) [
    | inl e ↦ rw (maybe_rotate, grown, e) same
    | inr e ↦
        let n = (seq + 1) % 2 ^ 64 in
        rw (maybe_rotate, grown, e)
          (OnDone-if (Keeps n) (not io.truncates) _ _ tt (
            OnDone-if (Keeps n) (not io.syncs) _ _ tt (
              OnDone-if (Keeps n) (not io.closes) _ _ tt
                (OnDone-if (Keeps n) (not io.creates) _ _ tt (new_segment-Keeps io seq _ same)))))
  ]

  note_last-Grown :
      (seq size : ℕ) (hs : Option H) (ents : List E) (l : Log H)
      → Grown seq size l
      → Grown seq size (note_last c hs ents l)
  unfolding note_last
  note_last-Grown seq size none ents l g = g
  note_last-Grown seq size (some h) ents l g = g

  append-Keeps :
      (io : AppendIo) (hs : Option H) (ents : List E) (sync : Bool) (l : Log H) (buf : List ℕ)
      → assemble c hs ents ≡ some buf
      → OnDone
          (Keeps (next_seq l.active_seq (l.active_size + length buf)))
          (append c max io hs ents sync l)
  unfolding append
  append-Keeps io hs ents sync l buf e =
      let size = l.active_size + length buf in
      let grown : Log H → Type 0 = Grown l.active_seq size in
      let keeps : Log H → Type 0 = Keeps (next_seq l.active_seq size) in
      rw (append, e)
        (OnDone-if keeps (not l.active) _ _ tt (
          OnDone-then grown keeps _ (maybe_rotate c max io.rotation)
            (OnDone-then grown grown (write_buf io.fails_after buf l) _
              (write_buf-Grown io.fails_after buf l)
              (λ l' g.
                let noted = note_last-Grown l.active_seq size hs ents l' g in
                OnDone-if grown sync (sync_active io.syncs (note_last c hs ents l'))
                  (done (note_last c hs ents l'))
                  (sync_active-OnDone c grown io.syncs (note_last c hs ents l') noted) noted))
            (maybe_rotate-Keeps io.rotation l.active_seq size)))

  -- If a sync is asked for and fails, Append does not return without an error.
  append-unsynced :
      (io : AppendIo) (hs : Option H) (ents : List E) (l : Log H)
      → io.syncs ≡ false
      → OnDone (λ l'. ⊥) (append c max io hs ents true l)
  unfolding append sync_active
  append-unsynced io hs ents l e = elim (Option-cases (assemble c hs ents)) [
    | inl z ↦ rw (append, z) (OnDone-if never (not l.active) _ _ tt tt)
    | inr (buf, eb) ↦
        rw (append, eb)
          (OnDone-if never (not l.active) _ _ tt (
            OnDone-then never never _ (maybe_rotate c max io.rotation)
              (OnDone-then (Grown l.active_seq (l.active_size + length buf)) never
                (write_buf io.fails_after buf l) _ (write_buf-Grown io.fails_after buf l)
                (λ l' g. rw (e, sync_active) tt))
              (λ l' h. absurd h)))
  ]
    where
      never : Log H → Type 0
      never l' = ⊥

  -- On a log that is open and holds some records, when every system call of Append and of the next
  -- Open succeeds and the records and hard states can be marshalled, each into at most 64 MiB with
  -- its type: Append returns without an error; the next Open returns the entries that no later write
  -- went over, of those that the log held and those that Append took, and the last of their hard
  -- states; the segment is the next one exactly when the write filled it; and with a sync asked for
  -- that fails, Append would not have returned without an error.
  pub append-kept :
      CodecLaws c
      → ((h : H) → Fits c (hard_record h))
      → ((h : H) → c.marshal_hard h ≢ none)
      → (io : AppendIo) (io2 : OpenIo) (hs : Option H) (ents : List E) (sync : Bool) (l : Log H)
        (xs : List (Record E H)) (buf : List ℕ)
      → All (Fits c) (records c hs ents)
      → IsLog c l xs
      → l.active ≡ true
      → IsFine c io
      → assemble c hs ents ≡ some buf
      → io2.works ≡ true
      → io2.allocates ≢ alloc_error
      → (l1 : Log H) × (append c max io hs ents sync l ≡ done l1)
        × ((l' : Log H) × (open_log c max io2 (files l1)
              ≡ opened l' (reverse (live c (xs ++ records c hs ents))))
            × (l'.last_hs ≡ last_hard c none (xs ++ records c hs ents)))
        × (l1.active_seq ≡ (
            if ltb (l.active_size + length buf) max
            then l.active_seq
            else (l.active_seq + 1) % 2 ^ 64))
        × ((l2 : Log H) → append c max (record io { syncs = false }) hs ents true l ≢ done l2)
  append-kept laws small marshals io io2 hs ents sync l xs buf fits k active fine e works
        allocates =
      let (l1, ran) = append-done c max io hs ents sync l buf active fine e marshals in
      (
        l1,
        ran,
        append-Opens c laws small max io io2 hs ents sync l l1 xs fits k ran works allocates,
        subst (OnDone (Keeps (next_seq l.active_seq (l.active_size + length buf)))) ran
            (append-Keeps io hs ents sync l buf e),
        λ l2 h.
            subst (OnDone (λ l'. ⊥)) h
              (append-unsynced (record io { syncs = false }) hs ents l refl),
      )
