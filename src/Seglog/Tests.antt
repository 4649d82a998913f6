-- ===== src/Seglog/Tests.antt =====
-- Runs of the segmented log on small inputs.
use sq.Common.{
  ◌↔◌, ◌≤◌, ℕ, ◌+◌, ◌%◌, ◌≡◌, refl, ap, sym, some-inj, none≢some, arith, ◌≢◌, take, drop, ◌∙◌, All,
  ◌<◌, ◌^◌, List, [], ◌∷◌, ◌++◌, Option, none, some, true, false, length,
}
use sq.Deliver.Table.{delete, insert}
use sq.Seglog.Log.{
  Opened, refused, truncate_each, write_buf, write_active, sync_active, note_last, last_of,
  maybe_rotate, new_segment, resize, repeat_hs, write_at,
}
use sq.Seglog.Scan.{read_record, take_record, take_entry, take_hard, cut_entries, keep_file}
use sq.Seglog.Frame.{read_frame, read_body}
use sq.Store.Bytes.{uint32, from_big_endian}
use sq.Seglog.Frame.{UpdateLaws, append_frame, append_frame_marshal, patch, zeros}
use sq.Seglog.Replay.{apply_all, payload_of, entry_record, hard_record, scan_segment-terminates}
use sq.Seglog.Recovery.{replay_all}
use sq.Seglog.Disk.{Fits, records}
use sq.Seglog.Sound.{IsLog, empty}
use sq.Seglog.Acknowledged.{append-kept}
use sq.Seglog.Durability.{IsFine, append-Opens, append_stopped-Opens, append-done}
use sq.Seglog.Live.{live, survives, last_hard, apply_all-live}
use sq.Seglog.Opening.{Opens}
use sq.Seglog.Log.{assemble, assemble_entries}
use sq.Seglog.Frame.{max_frame_len}
use sq.Seglog.Frames.{read_frame-append_frame, append_frame_marshal_lem}
use sq.Store.Bytes.{put_u32, big_endian}
use sq.Seglog.Scan.{Codec, CodecLaws, scan_all, scan_segment, starved}
use sq.Seglog.Log.{
  AppendIo, Log, OpenIo, Outcome, allocated, append, done, erred, files, open_log, prealloc_active,
  opened, unsupported,
}

-- An entry is its index and a term; a hard state is a number. The sum adds the bytes up.
abbrev Entry : Type 0
Entry = ℕ × ℕ

abbrev sum_of : ℕ → List ℕ → ℕ
sum_of c [] = c % 4294967296
sum_of c (b ∷ bs) = sum_of (c + b) bs

abbrev unmarshal_entry : List ℕ → Option Entry
unmarshal_entry (i ∷ t ∷ []) = some (i, t)
unmarshal_entry bs = none

abbrev unmarshal_hard : List ℕ → Option ℕ
unmarshal_hard (h ∷ []) = some h
unmarshal_hard bs = none

abbrev codec : Codec Entry ℕ
codec = record {
  update = sum_of;
  marshal_entry = λ e. some (e.0 ∷ e.1 ∷ []);
  unmarshal_entry = unmarshal_entry;
  index = λ e. e.0;
  marshal_hard = λ h. some (h ∷ []);
  unmarshal_hard = unmarshal_hard;
}

abbrev fine : AppendIo
fine = record {
  fails_after = none;
  syncs = true;
  rotation = record {
    truncates = true;
    syncs = true;
    closes = true;
    creates = true;
    dir_syncs = true;
    allocates = allocated;
    fails_after = none;
    hs_syncs = true;
  };
}

abbrev opens : OpenIo
opens = record { works = true; allocates = allocated }

sum_of-cong : (c d : ℕ) (bs : List ℕ) → c % 4294967296 ≡ d % 4294967296 → sum_of c bs ≡ sum_of d bs
sum_of-cong c d [] e = e
sum_of-cong c d (b ∷ bs) e = sum_of-cong (c + b) (d + b) bs (omega arith)

sum_of-append : (c : ℕ) (xs ys : List ℕ) → sum_of c (xs ++ ys) ≡ sum_of (sum_of c xs) ys
sum_of-append c [] ys = sum_of-cong c (c % 4294967296) ys (omega arith)
sum_of-append c (x ∷ xs) ys = sum_of-append (c + x) xs ys

sum_of-lt : (c : ℕ) (xs : List ℕ) → sum_of c xs < 2 ^ 32
sum_of-lt c [] = omega arith
sum_of-lt c (x ∷ xs) = sum_of-lt (c + x) xs

sums : UpdateLaws sum_of
sums = record { update-append = sum_of-append; update-lt = sum_of-lt }

laws : CodecLaws codec
laws = record {
  sums = sums;
  entry_back = λ e b same. ap unmarshal_entry (sym (some-inj same));
  hard_back = λ h b same. ap unmarshal_hard (sym (some-inj same));
}

small : (h : ℕ) → Fits codec (hard_record h)
unfolding payload_of
small h p e = omega (arith, ap length (some-inj e))

fits : (e : Entry) → Fits codec (entry_record e)
unfolding payload_of
fits e p same = omega (arith, ap length (some-inj same))

-- A log that holds nothing, as Open makes it on a file system without fallocate.
abbrev new_log : Log ℕ
new_log = record {
  closed = [];
  active = true;
  active_seq = 1;
  active_data = [];
  active_size = 0;
  last_index = 0;
  last_hs = none;
  seg_max = [];
  prealloc = false;
}

new_log-IsLog : IsLog codec new_log []
unfolding zeros replay_all
new_log-IsLog = record {
  disk = record {
    earlier = [];
    later = [];
    bytes = [];
    spare = 0;
    parts = refl;
    before = refl;
    now = refl;
    content = refl;
    size = refl;
  };
  hs = refl;
  index = refl;
}

new_log_opens :
    open_log codec 40 (record { works = true; allocates = unsupported }) [] ≡ opened new_log []
unfolding open_log scan_all prealloc_active delete
new_log_opens = refl

-- Three entries, which fill the first segment.
abbrev three : List Entry
three = (1, 1) ∷ (2, 1) ∷ (3, 1) ∷ []

three_fit : All (Fits codec) (records codec (some 7) three)
unfolding records
three_fit = (small 7, (fits (1, 1), (fits (2, 1), (fits (3, 1), tt))))

fine-IsFine : IsFine codec fine
fine-IsFine = record {
  writes = refl;
  syncs = refl;
  truncates = refl;
  syncs_old = refl;
  closes = refl;
  creates = refl;
  dir_syncs = refl;
  allocates = λ e. cc;
  writes_hs = refl;
  hs_syncs = refl;
}

abbrev buf : List ℕ
buf =
    0 ∷ 0 ∷ 0 ∷ 2 ∷ 0 ∷ 0 ∷ 0 ∷ 9 ∷ 2 ∷ 7 ∷ 0 ∷ 0 ∷ 0 ∷ 3 ∷ 0 ∷ 0 ∷ 0 ∷ 3 ∷ 1 ∷ 1 ∷ 1 ∷ 0 ∷ 0 ∷ 0
    ∷ 3 ∷ 0 ∷ 0 ∷ 0 ∷ 4 ∷ 1 ∷ 2 ∷ 1 ∷ 0 ∷ 0 ∷ 0 ∷ 3 ∷ 0 ∷ 0 ∷ 0 ∷ 5 ∷ 1 ∷ 3 ∷ 1 ∷ []

assembled : assemble codec (some 7) three ≡ some buf
unfolding assemble assemble_entries append_frame_marshal zeros patch put_u32 big_endian
assembled = refl

abbrev log_of : Outcome ℕ → Log ℕ
log_of (erred l) = l
log_of (done l) = l

abbrev filled : Log ℕ
filled = log_of (append codec 40 fine (some 7) three true new_log)

filled_lem : append codec 40 fine (some 7) three true new_log ≡ done filled
filled_lem =
    let (l, e) =
      append-done codec 40 fine (some 7) three true new_log buf refl fine-IsFine assembled
        (λ h e. none≢some (sym e)) in
    e ∙ ap (λ (o : Outcome ℕ). done (log_of o)) (sym e)

append-kept_example :
    (l1 : Log ℕ) × (append codec 40 fine (some 7) three true new_log ≡ done l1)
    × ((l' : Log ℕ) × (open_log codec 40 opens (files l1) ≡ opened l' three)
        × (l'.last_hs ≡ some 7))
    × (l1.active_seq ≡ new_log.active_seq + 1)
    × ((l2 : Log ℕ)
        → append codec 40 (record fine { syncs = false }) (some 7) three true new_log ≢ done l2)
unfolding records live survives last_hard
append-kept_example =
    append-kept codec 40 laws small (λ h e. none≢some (sym e)) fine opens (some 7) three true
      new_log [] buf three_fit new_log-IsLog refl fine-IsFine assembled refl (λ e. cc)

append-Opens_example :
    (l : Log ℕ) × (open_log codec 40 opens (files filled) ≡ opened l three) × (l.last_hs ≡ some 7)
unfolding records live survives last_hard
append-Opens_example =
    append-Opens codec laws small 40 fine opens (some 7) three true new_log filled [] three_fit
      new_log-IsLog filled_lem refl (λ e. cc)

-- The write stops in the first entry.
abbrev stops : AppendIo
stops = record fine { fails_after = some 15 }

append_stopped-Opens_example :
    (l : Log ℕ) × (m : ℕ) × (append codec 40 stops (some 7) three true new_log ≡ erred l)
    × Opens codec 40 opens l ([] ++ take m (records codec (some 7) three))
append_stopped-Opens_example =
    append_stopped-Opens codec laws 40 stops opens (some 7) three true new_log [] 0 (drop 1 buf) 15
      three_fit new_log-IsLog refl refl assembled refl refl (λ e. cc)

scan_segment-terminates_example :
    scan_segment codec 4 false
      (0 ∷ 0 ∷ 7 ∷ [])
      0
      (record { replay = record { hs = none; ents = []; last_index = 0 }; max = 0 })
    ≢ starved
scan_segment-terminates_example =
    scan_segment-terminates codec 4 false (0 ∷ 0 ∷ 7 ∷ []) 0
      (record { replay = record { hs = none; ents = []; last_index = 0 }; max = 0 }) (omega arith)

-- The second entry is written again, in a later term.
apply_all-live_example :
    ((apply_all codec
        (records codec (some 7) (three ++ ((2, 2) ∷ [])))
        (record { replay = empty; max = 0 })).replay.ents
      ≡ (2, 2) ∷ (1, 1) ∷ [])
    × ((apply_all codec
          (records codec (some 7) (three ++ ((2, 2) ∷ [])))
          (record { replay = empty; max = 0 })).replay.hs
        ≡ some 7)
unfolding records live survives last_hard
apply_all-live_example = apply_all-live codec (records codec (some 7) (three ++ ((2, 2) ∷ [])))

append_frame_marshal_lem_example :
    append_frame_marshal sum_of (5 ∷ []) 1 (some (8 ∷ 9 ∷ []))
    ≡ some (append_frame sum_of (5 ∷ []) 1 (8 ∷ 9 ∷ []))
append_frame_marshal_lem_example = append_frame_marshal_lem sum_of sums (5 ∷ []) 1 (8 ∷ 9 ∷ [])

-- The second entry is written again in the second segment, which then fills up.
abbrev rewritten : Log ℕ
rewritten = log_of (
    append codec 40 fine (some 7) [] true
      (log_of (append codec 40 fine (some 7) ((2, 2) ∷ []) true filled)))

-- The greatest index that is known of the first segment is 3, of the second one 2.
abbrev freed : Log ℕ
freed = log_of (truncate_each (λ seq. true) 2 ((1, 3) ∷ (2, 2) ∷ []) rewritten)

abbrev entries : Opened Entry ℕ → List Entry
entries refused = []
entries (opened l es) = es

-- The entries that were written over come back.
resurrected : entries (open_log codec 40 opens (files freed)) ≡ three
unfolding append assemble assemble_entries append_frame_marshal zeros patch put_u32 big_endian
    write_buf write_active sync_active note_last last_of maybe_rotate new_segment resize
    prealloc_active repeat_hs append_frame write_at insert truncate_each delete open_log scan_all
    scan_segment read_record read_frame read_body uint32 from_big_endian take_record take_entry
    take_hard cut_entries keep_file
resurrected = refl

small_frame :
    (read_frame sum_of (append_frame sum_of [] 2 (7 ∷ []) ++ (9 ∷ []))
      ≡ some (record { typ = 2; payload = 7 ∷ []; size = 10 }))
    ↔ (2 ≤ max_frame_len)
small_frame = read_frame-append_frame sum_of sums 2 (7 ∷ []) (9 ∷ []) (omega arith)
