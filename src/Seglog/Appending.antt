-- ===== src/Seglog/Appending.antt =====
-- Append adds its hard state and its entries to what the log holds.
use sq.Common.{
  ℕ, ◌≡◌, refl, ap, sym, ◌∙◌, Bool, not, List, [], ◌∷◌, ◌++◌, Option, none, some, append_assoc,
  append-nil, map, All, subst, Option-cases, inl, inr,
}
use sq.Seglog.Scan.{Codec, CodecLaws, Replay}
use sq.Seglog.Replay.{IsWritten, Record, entry_record, hard_record}
use sq.Seglog.Recovery.{replay_all, replay_all-append, step}
use sq.Seglog.Log.{AppendIo, Log, append, assemble, last_of, maybe_rotate, note_last, write_buf}
use sq.Seglog.Disk.{Fits, IsWritten-append, assemble-IsWritten, records}
use sq.Seglog.Sound.{
  empty, OnDone, OnDone-then, OnDone-if, IsOnDisk, IsLog, Holds, write_active-IsOnDisk,
  sync_active-OnDone, write_active-OnDone, same_disk,
}
use sq.Seglog.Rotation.{maybe_rotate-Holds}

module _ {E H : Type 0} (c : Codec E H) where
  module _ (small : (h : H) → Fits c (hard_record h)) where
    entries_lem :
        (ents : List E) (r : Replay E H)
        → ((replay_all c (map entry_record ents) r).hs ≡ r.hs)
          × ((replay_all c (map entry_record ents) r).last_index ≡ last_of c ents r.last_index)
    unfolding replay_all step last_of
    entries_lem [] r = (refl, refl)
    entries_lem (e ∷ es) r = entries_lem es (step c (entry_record e) r)

    note_last-IsLog :
        (hs : Option H) (ents : List E) (l : Log H) (xs : List (Record E H))
        → IsOnDisk c l (xs ++ records c hs ents)
        → l.last_hs ≡ (replay_all c xs empty).hs
        → l.last_index ≡ (replay_all c xs empty).last_index
        → IsLog c (note_last c hs ents l) (xs ++ records c hs ents)
    unfolding note_last records replay_all step
    note_last-IsLog none ents l xs d eh ei =
        let r = replay_all c xs empty in
        let all = replay_all-append c xs (map entry_record ents) empty in
        record {
          disk =
              same_disk c l (last_of c ents l.last_index) l.last_hs (xs ++ map entry_record ents) d;
          hs = eh ∙ sym (entries_lem ents r).0 ∙ ap (λ (x : Replay E H). x.hs) (sym all);
          index =
              ap (last_of c ents) ei
              ∙ sym (entries_lem ents r).1
              ∙ ap (λ (x : Replay E H). x.last_index) (sym all);
        }
    note_last-IsLog (some h) ents l xs d eh ei =
        let r = replay_all c xs empty in
        let r2 = step c (hard_record h) r in
        let all = replay_all-append c xs (hard_record h ∷ map entry_record ents) empty in
        record {
          disk =
              same_disk c l (last_of c ents l.last_index) (some h)
                (xs ++ (hard_record h ∷ map entry_record ents)) d;
          hs = sym (entries_lem ents r2).0 ∙ ap (λ (x : Replay E H). x.hs) (sym all);
          index =
              ap (last_of c ents) ei
              ∙ sym (entries_lem ents r2).1
              ∙ ap (λ (x : Replay E H). x.last_index) (sym all);
        }

    append-OnDone :
        (max : ℕ) (io : AppendIo) (hs : Option H) (ents : List E) (sync : Bool) (l : Log H)
        (xs : List (Record E H)) (buf : List ℕ)
        → IsWritten c (records c hs ents) buf
        → IsLog c l xs
        → OnDone
            (λ l'.
              IsOnDisk c l' (xs ++ records c hs ents)
              × (l'.last_hs ≡ l.last_hs)
              × (l'.last_index ≡ l.last_index))
            (write_buf io.fails_after buf l)
    unfolding write_buf
    append-OnDone max io hs ents sync l xs [] w k =
        let d = k.disk in
        let rs = records c hs ents in
        (
          record {
            earlier = d.earlier;
            later = d.later ++ rs;
            bytes = d.bytes;
            spare = d.spare;
            parts =
                ap (λ (x : List (Record E H)). x ++ rs) d.parts ∙ append_assoc d.earlier d.later rs;
            before = d.before;
            now =
                subst (IsWritten c (d.later ++ rs)) (append-nil d.bytes)
                  (IsWritten-append c d.later rs d.bytes [] d.now w);
            content = d.content;
            size = d.size;
          },
          refl,
          refl,
        )
    append-OnDone max io hs ents sync l xs (b ∷ bs) w k =
        write_active-OnDone c
          (λ l'.
            IsOnDisk c l' (xs ++ records c hs ents)
            × (l'.last_hs ≡ l.last_hs)
            × (l'.last_index ≡ l.last_index))
          io.fails_after (b ∷ bs) l
          (write_active-IsOnDisk c l xs (records c hs ents) (b ∷ bs) k.disk w, refl, refl)

    pub append-Holds :
        CodecLaws c
        → (max : ℕ) (io : AppendIo) (hs : Option H) (ents : List E) (sync : Bool) (l : Log H)
          (xs : List (Record E H))
        → All (Fits c) (records c hs ents)
        → IsLog c l xs
        → OnDone (Holds c (xs ++ records c hs ents)) (append c max io hs ents sync l)
    unfolding append
    append-Holds laws max io hs ents sync l xs fits k =
        let ys = xs ++ records c hs ents in
        elim (Option-cases (assemble c hs ents)) [
          | inl n ↦ rw (append, n) (OnDone-if (Holds c ys) (not l.active) _ _ tt tt)
          | inr (buf, e) ↦
              rw (append, e)
                (OnDone-if (Holds c ys) (not l.active) _ _ tt (
                  OnDone-then (λ l'. IsLog c l' ys) (Holds c ys) _ (maybe_rotate c max io.rotation)
                    (OnDone-then
                      (λ l'.
                        IsOnDisk c l' ys
                        × (l'.last_hs ≡ l.last_hs)
                        × (l'.last_index ≡ l.last_index))
                      (λ l'. IsLog c l' ys) (write_buf io.fails_after buf l) _
                      (append-OnDone max io hs ents sync l xs buf
                        (assemble-IsWritten c laws hs ents buf fits e) k)
                      (λ l' (d, eh, ei).
                        let sound = note_last-IsLog hs ents l' xs d (eh ∙ k.hs) (ei ∙ k.index) in
                        OnDone-if (λ l2. IsLog c l2 ys) sync _ _
                          (sync_active-OnDone c (λ l2. IsLog c l2 ys) io.syncs
                            (note_last c hs ents l') sound)
                          sound))
                    (λ l' k'. maybe_rotate-Holds c small max io.rotation l' ys k')))
        ]
