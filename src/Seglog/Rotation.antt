-- ===== src/Seglog/Rotation.antt =====
-- maybeRotate keeps what the log holds: the new segment starts with the last hard state, which the
-- log holds already.
use sq.Common.{
  ℕ, ◌+◌, ◌%◌, ◌^◌, ◌≡◌, refl, ap, sym, ◌∙◌, true, false, not, List, [], ◌∷◌, ◌++◌, Option, some,
  length, append_assoc, append-nil, subst, Option-cases, inl, inr, ltb,
}
use sq.Deliver.Table.{Table, insert}
use sq.Seglog.Frame.{append_frame, zeros, rec_hard_state}
use sq.Seglog.Frames.{frame_of, append_frame_lem}
use sq.Seglog.Scan.{Codec, Replay}
use sq.Seglog.Replay.{IsWritten, Record, hard_record, payload_of, type_of}
use sq.Seglog.Recovery.{IsClosed, replay_all, replay_all-append, step}
use sq.Seglog.Log.{
  Log, RotateIo, done, maybe_rotate, new_segment, prealloc_active, repeat_hs, resize, sync_active,
  write_active, ◌>>◌,
}
use sq.Seglog.Disk.{Fits, resize-spare}
use sq.Seglog.Sound.{
  empty, OnDone, OnDone-then, OnDone-if, IsLog, Holds, write_active-IsOnDisk, prealloc_active-IsLog,
  sync_active-OnDone, write_active-OnDone,
}

module _ {E H : Type 0} (c : Codec E H) where
  IsClosed-append :
      (closed : Table (List ℕ)) (xs ys : List (Record E H)) (seq : ℕ) (bytes : List ℕ)
      → IsClosed c closed xs
      → IsWritten c ys bytes
      → IsClosed c (closed ++ ((seq, bytes) ∷ [])) (xs ++ ys)
  IsClosed-append [] xs ys seq bytes w v =
      (ys, [], ap (λ (l : List (Record E H)). l ++ ys) w ∙ sym (append-nil ys), v, refl)
  IsClosed-append ((n, content) ∷ closed) xs ys seq bytes (x1, x2, e, w1, w) v = (
    x1,
    x2 ++ ys,
    ap (λ (l : List (Record E H)). l ++ ys) e ∙ append_assoc x1 x2 ys,
    w1,
    IsClosed-append closed x2 ys seq bytes w v,
  )

  abbrev with_hs : Replay E H → Option H → Replay E H
  with_hs r o = record { hs = o; ents = r.ents; last_index = r.last_index }

  same_hs : (r : Replay E H) (h : H) → r.hs ≡ some h → step c (hard_record h) r ≡ r
  unfolding step
  same_hs r h e = ap (with_hs r) (sym e)

  one-IsWritten :
      (x : Record E H) (p : List ℕ)
      → Fits c x
      → payload_of c x ≡ some p
      → IsWritten c (x ∷ []) (append_frame c.update [] (type_of c x) p)
  one-IsWritten x p fit e = (
    p,
    [],
    e,
    fit p e,
    append_frame_lem c.update [] (type_of c x) p
        ∙ sym (append-nil (frame_of c.update (type_of c x) p)),
    refl,
  )

  module _ (small : (h : H) → Fits c (hard_record h)) where
    repeat_hs-Holds :
        (io : RotateIo) (l : Log H) (xs : List (Record E H))
        → IsLog c l xs
        → OnDone (Holds c xs) (repeat_hs c io l)
    unfolding repeat_hs payload_of type_of
    repeat_hs-Holds io l xs k = elim (Option-cases l.last_hs) [
      | inl e ↦ rw (repeat_hs, e) (xs, k, refl)
      | inr (h, e) ↦ elim (Option-cases (c.marshal_hard h)) [
        | inl n ↦ rw (repeat_hs, e, n) tt
        | inr (p, ep) ↦
            let neutral : replay_all c (xs ++ (hard_record h ∷ [])) empty ≡ replay_all c xs empty =
              replay_all-append c xs (hard_record h ∷ []) empty
              ∙ (unfold replay_all in same_hs (replay_all c xs empty) h (sym k.hs ∙ e)) in
            let frame = append_frame c.update [] rec_hard_state p in
            let written =
              write_active-IsOnDisk c l xs (hard_record h ∷ []) frame k.disk
                (one-IsWritten (hard_record h) p (small h) ep) in
            rw (repeat_hs, e, ep)
              (OnDone-then (Holds c xs) (Holds c xs) (write_active io.fails_after frame l)
                (sync_active io.hs_syncs)
                (write_active-OnDone c (Holds c xs) io.fails_after frame l (
                  xs ++ (hard_record h ∷ []),
                  record {
                    disk = written;
                    hs = k.hs ∙ ap (λ (r : Replay E H). r.hs) (sym neutral);
                    index = k.index ∙ ap (λ (r : Replay E H). r.last_index) (sym neutral);
                  },
                  neutral,
                ))
                (sync_active-OnDone c (Holds c xs) io.hs_syncs))
      ]
    ]

    seg_max-Holds :
        (l : Log H) (xs : List (Record E H)) (maxes : Table ℕ)
        → Holds c xs l
        → Holds c xs (record l { seg_max = maxes })
    seg_max-Holds l xs maxes (zs, k, e) =
        let d = k.disk in
        (
          zs,
          record {
            disk = record {
              earlier = d.earlier;
              later = d.later;
              bytes = d.bytes;
              spare = d.spare;
              parts = d.parts;
              before = d.before;
              now = d.now;
              content = d.content;
              size = d.size;
            };
            hs = k.hs;
            index = k.index;
          },
          e,
        )

    new_segment-Holds :
        (max : ℕ) (io : RotateIo) (l : Log H) (xs earlier later : List (Record E H))
        → l.last_hs ≡ (replay_all c xs empty).hs
        → l.last_index ≡ (replay_all c xs empty).last_index
        → xs ≡ earlier ++ later
        → IsClosed c l.closed earlier
        → IsWritten c later l.active_data
        → OnDone (Holds c xs) (new_segment c max io l)
    unfolding new_segment
    new_segment-Holds max io l xs earlier later eh ei e w v =
        let fresh : Log H = record l {
          closed = l.closed ++ ((l.active_seq, l.active_data) ∷ []);
          active = true;
          active_seq = (l.active_seq + 1) % 2 ^ 64;
          active_data = [];
          active_size = 0;
        } in
        let sound : IsLog c fresh xs = record {
          disk = record {
            earlier = earlier ++ later;
            later = [];
            bytes = [];
            spare = 0;
            parts = e ∙ sym (append-nil (earlier ++ later));
            before = IsClosed-append l.closed earlier later l.active_seq l.active_data w v;
            now = refl;
            content = (unfold zeros in refl);
            size = refl;
          };
          hs = eh;
          index = ei;
        } in
        OnDone-if (Holds c xs) (not io.dir_syncs) _ _ tt (
          OnDone-then (Holds c xs) (Holds c xs)
            (prealloc_active c max io.allocates fresh >> repeat_hs c io)
            (λ l'. done (record l' { seg_max = insert l.active_seq l.last_index l'.seg_max }))
            (OnDone-then (λ l'. IsLog c l' xs) (Holds c xs)
              (prealloc_active c max io.allocates fresh) (repeat_hs c io)
              (prealloc_active-IsLog c max io.allocates fresh xs sound)
              (λ l' k. repeat_hs-Holds io l' xs k))
            (λ l' k. seg_max-Holds l' xs (insert l.active_seq l.last_index l'.seg_max) k))

    pub maybe_rotate-Holds :
        (max : ℕ) (io : RotateIo) (l : Log H) (xs : List (Record E H))
        → IsLog c l xs
        → OnDone (Holds c xs) (maybe_rotate c max io l)
    unfolding maybe_rotate
    maybe_rotate-Holds max io l xs k =
        let d = k.disk in
        let cut : resize l.active_size l.active_data ≡ d.bytes =
          ap (λ (n : ℕ). resize n l.active_data) d.size
          ∙ ap (resize (length d.bytes)) d.content
          ∙ resize-spare d.bytes d.spare in
        OnDone-if (Holds c xs) (ltb l.active_size max) _ _ (xs, k, refl)
          (OnDone-if (Holds c xs) (not io.truncates) _ _ tt (
            OnDone-if (Holds c xs) (not io.syncs) _ _ tt (
              OnDone-if (Holds c xs) (not io.closes) _ _ tt (
                OnDone-if (Holds c xs) (not io.creates) _ _ tt (
                  new_segment-Holds max io
                    (record l { active_data = resize l.active_size l.active_data; active = false })
                    xs d.earlier d.later k.hs k.index d.parts d.before
                    (subst (IsWritten c d.later) (sym cut) d.now))))))
