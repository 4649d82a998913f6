-- ===== src/Seglog/Scan.antt =====
-- The scan of the segments in Open, internal/cluster/seglog/seglog.go: what is read back of the log
-- from its files. Entries and hard states, with their protobuf forms, are parameters.
use sq.Common.{
  ℕ, zero, suc, ◌+◌, ◌≡◌, Bool, true, false, List, [], ◌∷◌, Option, none, some, length, take, drop,
  leb, ◌==◌, if◌then◌else◌, ◌>>=◌,
}
use sq.Deliver.Table.{Table, insert}
use sq.Seglog.Frame.{Frame, UpdateLaws, read_frame, rec_entry, rec_hard_state}

-- The raftpb messages Entry and HardState: proto.Marshal, which may fail, proto.Unmarshal and
-- GetIndex, with crc32.Update.
pub record Codec (E H : Type 0) : Type 0 where
  pub update : ℕ → List ℕ → ℕ
  pub marshal_entry : E → Option (List ℕ)
  pub unmarshal_entry : List ℕ → Option E
  pub index : E → ℕ
  pub marshal_hard : H → Option (List ℕ)
  pub unmarshal_hard : List ℕ → Option H

-- What is marshalled is unmarshalled.
pub record CodecLaws {E H : Type 0} (c : Codec E H) : Type 0 where
  pub sums : UpdateLaws c.update
  pub entry_back : (e : E) (b : List ℕ) → c.marshal_entry e ≡ some b → c.unmarshal_entry b ≡ some e
  pub hard_back : (h : H) (b : List ℕ) → c.marshal_hard h ≡ some b → c.unmarshal_hard b ≡ some h

-- The variables hs, ents and lastIndex of Open; the last entry stands first.
pub record Replay (E H : Type 0) : Type 0 where
  pub hs : Option H
  pub ents : List E
  pub last_index : ℕ

-- With segMax[seq], the greatest index of the segment that is scanned.
pub record Segment (E H : Type 0) : Type 0 where
  pub replay : Replay E H
  pub max : ℕ

-- The end of a segment's scan: the error of a damaged segment, or the offset of its last good
-- frame's end. `starved` is no result of the code.
pub data Scanned (E H : Type 0) : Type 0 where
  starved : Scanned E H
  corrupt : Scanned E H
  scanned : Segment E H → ℕ → Scanned E H

-- What Open has once every segment is scanned: the replay, segMax, the segments before the last one,
-- the number and the bytes of the last one, and the end of its good frames.
pub data Recovery (E H : Type 0) : Type 0 where
  damaged : Recovery E H
  recovered : Replay E H → Table ℕ → Table (List ℕ) → ℕ → List ℕ → ℕ → Recovery E H

unfoldable pub keep_file : {E H : Type 0} → ℕ × List ℕ → Recovery E H → Recovery E H
keep_file f damaged = damaged
keep_file f (recovered r maxes closed seq content off) =
    recovered r maxes (f ∷ closed) seq content off

module _ {E H : Type 0} (c : Codec E H) where
  -- ents[:cut]
  unfoldable pub cut_entries : ℕ → List E → List E
  cut_entries idx [] = []
  cut_entries idx (e ∷ es) =
      let rest = cut_entries idx es in if leb idx (c.index e) then rest else e ∷ es

  unfoldable pub take_entry : E → Segment E H → Segment E H
  take_entry e s =
      let r = s.replay in
      let kept = if leb (c.index e) r.last_index then cut_entries (c.index e) r.ents else r.ents in
      record {
        replay = record { hs = r.hs; ents = e ∷ kept; last_index = c.index e };
        max = c.index e;
      }

  unfoldable pub take_hard : H → Segment E H → Segment E H
  take_hard h s = record s { replay = record (s.replay) { hs = some h } }

  -- The switch on the type of a frame; `none` is a payload that cannot be decoded, and a frame of
  -- another type is passed over.
  unfoldable pub take_record : Frame → Segment E H → Option (Segment E H)
  take_record f s =
      if f.typ == rec_entry
      then c.unmarshal_entry f.payload >>= (λ e. some (take_entry e s))
      else if f.typ == rec_hard_state
      then c.unmarshal_hard f.payload >>= (λ h. some (take_hard h s))
      else some s

  unfoldable pub read_record : List ℕ → Segment E H → Option (ℕ × Segment E H)
  read_record buf s = read_frame c.update buf >>= λ f. take_record f s >>= λ s'. some (f.size, s')

  -- The loop over one segment: the bytes from `off` on, the offset, and what is read so far.
  unfoldable pub scan_segment : ℕ → Bool → List ℕ → ℕ → Segment E H → Scanned E H
  scan_segment zero is_last buf off s = starved
  scan_segment (suc fuel) is_last [] off s = scanned s off
  scan_segment (suc fuel) is_last (b ∷ bs) off s = elim (read_record (b ∷ bs) s) [
    | none ↦ if is_last then scanned s off else corrupt
    | some (n, s') ↦ scan_segment fuel is_last (drop n (b ∷ bs)) (off + n) s'
  ]

  -- Open's loop over the segments, in the order of their numbers, each of which gets an entry in
  -- segMax; the last one is cut after its last good frame. Without a segment the first one is new.
  unfoldable pub scan_all : Table (List ℕ) → Replay E H → Table ℕ → Recovery E H
  scan_all [] r maxes = recovered r maxes [] 1 [] 0
  scan_all ((seq, content) ∷ []) r maxes =
      elim (scan_segment (suc (length content)) true content 0 (record { replay = r; max = 0 })) [
        | starved ↦ damaged
        | corrupt ↦ damaged
        | scanned s off ↦ recovered s.replay (insert seq s.max maxes) [] seq (take off content) off
      ]
  scan_all ((seq, content) ∷ (next ∷ files)) r maxes =
      elim (scan_segment (suc (length content)) false content 0 (record { replay = r; max = 0 })) [
        | starved ↦ damaged
        | corrupt ↦ damaged
        | scanned s off ↦
            keep_file (seq, content) (scan_all (next ∷ files) s.replay (insert seq s.max maxes))
      ]
