-- ===== src/Seglog/Opening.antt =====
-- Open finds in the files of a log what the log holds.
use sq.Common.{
  ℕ, ◌-◌, ◌≡◌, ◌≢◌, refl, ap, sym, ◌∙◌, true, false, List, [], ◌∷◌, ◌++◌, length, append-nil, subst,
  reverse, none,
}
use sq.Deliver.Table.{delete}
use sq.Seglog.Frame.{zeros}
use sq.Seglog.Frames.{read_frame-zeros}
use sq.Seglog.Scan.{Codec, CodecLaws, recovered, scan_all}
use sq.Seglog.Replay.{Record}
use sq.Seglog.Recovery.{replay_all, scan_all-written}
use sq.Seglog.Live.{live, last_hard, replay_all-live}
use sq.Seglog.Frame.{read_frame}
use sq.Seglog.Recovery.{IsClosed}
use sq.Seglog.Replay.{IsWritten}
use sq.Seglog.Log.{
  Log, OpenIo, Allocation, alloc_error, allocated, done, files, open_log, opened, prealloc_active,
  unsupported,
}
use sq.Seglog.Sound.{empty, OnDone, IsOnDisk, IsLog, prealloc_active-IsLog}

module _ {E H : Type 0} (c : Codec E H) where
  pub prealloc_active-done :
      (max : ℕ) (a : Allocation) (l : Log H)
      → a ≢ alloc_error
      → (l' : Log H) × (prealloc_active c max a l ≡ done l')
  unfolding prealloc_active
  prealloc_active-done max allocated l h = (
    record l { active_data = l.active_data ++ zeros (max - length l.active_data); prealloc = true },
    refl,
  )
  prealloc_active-done max unsupported l h = (record l { prealloc = false }, refl)
  prealloc_active-done max alloc_error l h = absurd (h refl)

  -- The files hold the frames of the records, and then bytes that begin with no frame.
  pub record IsReadable (l : Log H) (xs : List (Record E H)) : Type 0 where
    pub earlier : List (Record E H)
    pub later : List (Record E H)
    pub bytes : List ℕ
    pub tail : List ℕ
    pub parts : xs ≡ earlier ++ later
    pub before : IsClosed c l.closed earlier
    pub now : IsWritten c later bytes
    pub content : l.active_data ≡ bytes ++ tail
    pub torn : read_frame c.update tail ≡ none

  pub IsOnDisk-IsReadable : (l : Log H) (xs : List (Record E H)) → IsOnDisk c l xs → IsReadable l xs
  IsOnDisk-IsReadable l xs d = record {
    earlier = d.earlier;
    later = d.later;
    bytes = d.bytes;
    tail = zeros d.spare;
    parts = d.parts;
    before = d.before;
    now = d.now;
    content = d.content;
    torn = read_frame-zeros c.update d.spare;
  }

  -- Open succeeds on the log's files, returns the entries and the hard state that the records
  -- amount to, and holds the records.
  abbrev pub Opens : ℕ → OpenIo → Log H → List (Record E H) → Type 0
  Opens max io l xs =
      (l' : Log H) × (open_log c max io (files l) ≡ opened l' (reverse (live c xs)))
      × (l'.last_hs ≡ last_hard c none xs)
      × IsLog c l' xs

  pub open_log-IsReadable :
      CodecLaws c
      → (max : ℕ) (io : OpenIo) (l : Log H) (xs : List (Record E H)) → IsReadable l xs
      → io.works ≡ true
      → io.allocates ≢ alloc_error
      → Opens max io l xs
  unfolding open_log
  open_log-IsReadable laws max io l xs d works allocates =
      let ys = d.earlier ++ d.later in
      let r = replay_all c ys empty in
      let (maxes, read) =
        scan_all-written c laws l.closed d.earlier d.later d.bytes d.tail l.active_seq empty []
          d.before d.now d.torn in
      let found : scan_all c (files l) empty []
          ≡ recovered r maxes l.closed l.active_seq d.bytes (length d.bytes) =
        ap (λ (b : List ℕ). scan_all c (l.closed ++ ((l.active_seq, b) ∷ [])) empty []) d.content
        ∙ read in
      let fresh : Log H = record {
        closed = l.closed;
        active = true;
        active_seq = l.active_seq;
        active_data = d.bytes;
        active_size = length d.bytes;
        last_index = r.last_index;
        last_hs = r.hs;
        seg_max = delete l.active_seq maxes;
        prealloc = false;
      } in
      let sound : IsLog c fresh ys = record {
        disk = record {
          earlier = d.earlier;
          later = d.later;
          bytes = d.bytes;
          spare = 0;
          parts = refl;
          before = d.before;
          now = d.now;
          content = (unfold zeros in sym (append-nil d.bytes));
          size = refl;
        };
        hs = refl;
        index = refl;
      } in
      let (l', e) = prealloc_active-done max io.allocates fresh allocates in
      let holds : IsLog c l' xs = subst (IsLog c l') (sym d.parts) (
        subst (OnDone (λ l2. IsLog c l2 ys)) e
          (prealloc_active-IsLog c max io.allocates fresh ys sound)) in
      (
        l',
        rw (open_log, works, found, e)
            (ap (λ (es : List E). opened l' (reverse es))
              ((replay_all-live c ys).0 ∙ ap (live c) (sym d.parts))),
        holds.hs ∙ (replay_all-live c xs).1,
        holds,
      )
