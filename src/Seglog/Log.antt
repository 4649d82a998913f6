-- ===== src/Seglog/Log.antt =====
-- The log of internal/cluster/seglog/seglog.go: Open, Append with maybeRotate, Sync, Close and
-- TruncateTo, each under the log's lock. The outcome of every system call is an argument.
use sq.Common.{
  ℕ, ◌+◌, ◌-◌, ◌%◌, ◌^◌, Bool, true, false, not, List, [], ◌∷◌, ◌++◌, Option, none, some, length,
  take, drop, ltb, if◌then◌else◌, ◌>>=◌, reverse,
}
use sq.Deliver.Table.{Table, insert, delete}
use sq.Seglog.Frame.{append_frame, append_frame_marshal, rec_entry, rec_hard_state, zeros}
use sq.Seglog.Scan.{Codec, damaged, recovered, scan_all}

-- The files of the directory are the closed segments and the newest one, whose number is
-- active_seq; `active` says whether the log still holds it open.
pub record Log (H : Type 0) : Type 0 where
  pub closed : Table (List ℕ)
  pub active : Bool
  pub active_seq : ℕ
  pub active_data : List ℕ
  pub active_size : ℕ
  pub last_index : ℕ
  pub last_hs : Option H
  pub seg_max : Table ℕ
  pub prealloc : Bool

pub data Outcome (H : Type 0) : Type 0 where
  erred : Log H → Outcome H
  done : Log H → Outcome H

infixl 5 ◌>>◌
abbrev pub ◌>>◌ : {H : Type 0} → Outcome H → (Log H → Outcome H) → Outcome H
erred l >> f = erred l
done l >> f = f l

-- What fallocate answers: a file system may not support it.
pub data Allocation : Type 0 where
  allocated : Allocation
  unsupported : Allocation
  alloc_error : Allocation

-- The system calls of a rotation, in their order; a write that fails has put some bytes down.
pub record RotateIo : Type 0 where
  pub truncates : Bool
  pub syncs : Bool
  pub closes : Bool
  pub creates : Bool
  pub dir_syncs : Bool
  pub allocates : Allocation
  pub fails_after : Option ℕ
  pub hs_syncs : Bool

pub record AppendIo : Type 0 where
  pub fails_after : Option ℕ
  pub syncs : Bool
  pub rotation : RotateIo

-- Open's calls on the directory and the files, any of which makes it return an error.
pub record OpenIo : Type 0 where
  pub works : Bool
  pub allocates : Allocation

pub data Opened (E H : Type 0) : Type 0 where
  refused : Opened E H
  opened : Log H → List E → Opened E H

-- WriteAt and Truncate on the bytes of a file.
unfoldable pub write_at : ℕ → List ℕ → List ℕ → List ℕ
write_at off buf content =
    take off content ++ zeros (off - length content) ++ (buf ++ drop (off + length buf) content)

unfoldable pub resize : ℕ → List ℕ → List ℕ
resize n content = take n content ++ zeros (n - length content)

-- The files in the order of their numbers, as the next Open finds them.
abbrev pub files : {H : Type 0} → Log H → Table (List ℕ)
files l = l.closed ++ ((l.active_seq, l.active_data) ∷ [])

module _ {H : Type 0} where
  -- WriteAt at the end of what is written.
  unfoldable pub write_active : Option ℕ → List ℕ → Log H → Outcome H
  write_active (some n) buf l =
      erred (record l { active_data = write_at l.active_size (take n buf) l.active_data })
  write_active none buf l = done (record l {
    active_data = write_at l.active_size buf l.active_data;
    active_size = l.active_size + length buf;
  })

  unfoldable pub write_buf : Option ℕ → List ℕ → Log H → Outcome H
  write_buf fails [] l = done l
  write_buf fails (b ∷ bs) l = write_active fails (b ∷ bs) l

  unfoldable pub sync_active : Bool → Log H → Outcome H
  sync_active true l = done l
  sync_active false l = erred l

module _ {E H : Type 0} (c : Codec E H) where
  -- Append's frames.
  unfoldable pub assemble_entries : List E → List ℕ → Option (List ℕ)
  assemble_entries [] buf = some buf
  assemble_entries (e ∷ es) buf =
      append_frame_marshal c.update buf rec_entry (c.marshal_entry e) >>= assemble_entries es

  unfoldable pub assemble : Option H → List E → Option (List ℕ)
  assemble none es = assemble_entries es []
  assemble (some h) es =
      append_frame_marshal c.update [] rec_hard_state (c.marshal_hard h) >>= assemble_entries es

  -- The frame of the last hard state at the start of a new segment.
  unfoldable pub repeat_hs : RotateIo → Log H → Outcome H
  repeat_hs io l = elim l.last_hs [
    | none ↦ done l
    | some h ↦ elim (c.marshal_hard h) [
      | none ↦ erred l
      | some payload ↦
          write_active io.fails_after (append_frame c.update [] rec_hard_state payload) l
          >> sync_active io.hs_syncs
    ]
  ]

  unfoldable pub last_of : List E → ℕ → ℕ
  last_of [] i = i
  last_of (e ∷ es) i = last_of es (c.index e)

  -- Only after the write are lastHS and lastIndex changed.
  unfoldable pub note_last : Option H → List E → Log H → Log H
  note_last none ents l = record l { last_index = last_of ents l.last_index }
  note_last (some h) ents l = record l { last_hs = some h; last_index = last_of ents l.last_index }

module _ {E H : Type 0} (c : Codec E H) (seg_max_bytes : ℕ) where
  -- preallocate, and preallocActive.
  unfoldable pub prealloc_active : Allocation → Log H → Outcome H
  prealloc_active allocated l = done (record l {
    active_data = l.active_data ++ zeros (seg_max_bytes - length l.active_data);
    prealloc = true;
  })
  prealloc_active unsupported l = done (record l { prealloc = false })
  prealloc_active alloc_error l = erred l

  unfoldable pub open_log : OpenIo → Table (List ℕ) → Opened E H
  open_log io segments =
      if not io.works
      then refused
      else elim (scan_all c segments (record { hs = none; ents = []; last_index = 0 }) []) [
        | damaged ↦ refused
        | recovered r maxes closed seq content off ↦
            elim (prealloc_active io.allocates (record {
              closed = closed;
              active = true;
              active_seq = seq;
              active_data = content;
              active_size = off;
              last_index = r.last_index;
              last_hs = r.hs;
              seg_max = delete seq maxes;
              prealloc = false;
            })) [ erred l ↦ refused | done l ↦ opened l (reverse r.ents) ]
      ]

  -- maybeRotate from the creation of the new file on.
  unfoldable pub new_segment : RotateIo → Log H → Outcome H
  new_segment io l =
      let fresh = record l {
        closed = l.closed ++ ((l.active_seq, l.active_data) ∷ []);
        active_seq = (l.active_seq + 1) % 2 ^ 64;
        active_data = [];
      } in
      if not io.dir_syncs
      then erred fresh
      else prealloc_active io.allocates (record fresh { active = true; active_size = 0 })
        >> repeat_hs c io
        >> λ l'. done (record l' { seg_max = insert l.active_seq l.last_index l'.seg_max })

  unfoldable pub maybe_rotate : RotateIo → Log H → Outcome H
  maybe_rotate io l =
      let cut = record l { active_data = resize l.active_size l.active_data } in
      if ltb l.active_size seg_max_bytes
      then done l
      else if not io.truncates
      then erred l
      else if not io.syncs
      then erred cut
      else if not io.closes
      then erred cut
      else if not io.creates
      then erred (record cut { active = false })
      else new_segment io (record cut { active = false })

  unfoldable pub append : AppendIo → Option H → List E → Bool → Log H → Outcome H
  append io hs ents sync l = if not l.active then erred l else elim (assemble c hs ents) [
    | none ↦ erred l
    | some buf ↦
        write_buf io.fails_after buf l
        >> (λ l'.
            let l2 = note_last c hs ents l' in if sync then sync_active io.syncs l2 else done l2)
        >> maybe_rotate io.rotation
  ]

module _ {H : Type 0} where
  -- Sync.
  unfoldable pub sync : Bool → Log H → Outcome H
  sync works l = if not l.active then erred l else if works then done l else erred l

  -- Close; an error of the file's own Close is reported, and the log is closed all the same.
  unfoldable pub close : Bool → Log H → Outcome H
  close works l =
      let shut = record l { active = false } in
      if not l.active then done l else if works then done shut else erred shut

  -- TruncateTo goes over the entries of segMax, in the order that `order` lists them.
  unfoldable pub truncate_each : (ℕ → Bool) → ℕ → Table ℕ → Log H → Outcome H
  truncate_each removes upto [] l = done l
  truncate_each removes upto ((seq, max) ∷ order) l =
      let kept = truncate_each removes upto order l in
      let freed =
        truncate_each removes upto order
          (record l { closed = delete seq l.closed; seg_max = delete seq l.seg_max }) in
      if ltb upto max then kept else if removes seq then freed else erred l
