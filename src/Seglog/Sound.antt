-- ===== src/Seglog/Sound.antt =====
-- A log whose files and state hold the records it was given, and what holds of the log that a call
-- leaves.
use sq.Common.{
  ℕ, zero, suc, ◌+◌, ◌-◌, ◌≡◌, refl, ap, ◌∙◌, arith, Bool, true, false, List, [], ◌∷◌, ◌++◌, Option,
  none, some, length, append_assoc, length-append, if◌then◌else◌,
}
use sq.Seglog.Frame.{zeros}
use sq.Seglog.Scan.{Codec, Replay}
use sq.Seglog.Replay.{IsWritten, Record}
use sq.Seglog.Recovery.{IsClosed, replay_all}
use sq.Seglog.Log.{
  Log, Outcome, Allocation, alloc_error, allocated, done, erred, prealloc_active, sync_active,
  unsupported, write_active, write_at, ◌>>◌,
}
use sq.Seglog.Disk.{IsWritten-append, write_at-spare}

abbrev pub empty : {E H : Type 0} → Replay E H
empty = record { hs = none; ents = []; last_index = 0 }

-- What holds of the log if the call succeeded.
abbrev pub OnDone : {H : Type 0} → (Log H → Type 0) → Outcome H → Type 0
OnDone P (erred l) = Unit {0}
OnDone P (done l) = P l

pub OnDone-then :
    {H : Type 0} (P Q : Log H → Type 0) (o : Outcome H) (f : Log H → Outcome H)
    → OnDone P o
    → ((l : Log H) → P l → OnDone Q (f l))
    → OnDone Q (o >> f)
OnDone-then P Q (erred l) f h k = tt
OnDone-then P Q (done l) f h k = k l h

pub OnDone-map :
    {H : Type 0} (P Q : Log H → Type 0) (o : Outcome H)
    → OnDone P o
    → ((l : Log H) → P l → Q l)
    → OnDone Q o
OnDone-map P Q (erred l) h k = tt
OnDone-map P Q (done l) h k = k l h

pub OnDone-if :
    {H : Type 0} (P : Log H → Type 0) (b : Bool) (x y : Outcome H)
    → OnDone P x
    → OnDone P y
    → OnDone P (if b then x else y)
OnDone-if P true x y h k = h
OnDone-if P false x y h k = k

module _ {E H : Type 0} (c : Codec E H) where
  -- The files hold the frames of the records, and active_size is the end of the last one.
  pub record IsOnDisk (l : Log H) (xs : List (Record E H)) : Type 0 where
    pub earlier : List (Record E H)
    pub later : List (Record E H)
    pub bytes : List ℕ
    pub spare : ℕ
    pub parts : xs ≡ earlier ++ later
    pub before : IsClosed c l.closed earlier
    pub now : IsWritten c later bytes
    pub content : l.active_data ≡ bytes ++ zeros spare
    pub size : l.active_size ≡ length bytes

  -- lastHS and lastIndex are those of the records.
  pub record IsLog (l : Log H) (xs : List (Record E H)) : Type 0 where
    pub disk : IsOnDisk l xs
    pub hs : l.last_hs ≡ (replay_all c xs empty).hs
    pub index : l.last_index ≡ (replay_all c xs empty).last_index

  pub write_active-IsOnDisk :
      (l : Log H) (xs ys : List (Record E H)) (buf : List ℕ)
      → IsOnDisk l xs
      → IsWritten c ys buf
      → IsOnDisk
          (record l {
            active_data = write_at l.active_size buf l.active_data;
            active_size = l.active_size + length buf;
          })
          (xs ++ ys)
  write_active-IsOnDisk l xs ys buf d w = record {
    earlier = d.earlier;
    later = d.later ++ ys;
    bytes = d.bytes ++ buf;
    spare = d.spare - length buf;
    parts = ap (λ (l : List (Record E H)). l ++ ys) d.parts ∙ append_assoc d.earlier d.later ys;
    before = d.before;
    now = IsWritten-append c d.later ys d.bytes buf d.now w;
    content =
        ap (λ (n : ℕ). write_at n buf l.active_data) d.size
        ∙ ap (write_at (length d.bytes) buf) d.content
        ∙ write_at-spare d.bytes buf d.spare;
    size = omega (arith, d.size, length-append d.bytes buf);
  }

  pub zeros-append : (m n : ℕ) → zeros m ++ zeros n ≡ zeros (m + n)
  unfolding zeros
  zeros-append zero n = ap zeros (omega arith)
  zeros-append (suc m) n = ap (◌∷◌ 0) (zeros-append m n) ∙ ap zeros {x = suc (m + n)} (omega arith)

  pub prealloc_active-IsOnDisk :
      (max : ℕ) (a : Allocation) (l : Log H) (xs : List (Record E H))
      → IsOnDisk l xs
      → OnDone
          (λ l'. IsOnDisk l' xs × (l'.last_hs ≡ l.last_hs) × (l'.last_index ≡ l.last_index))
          (prealloc_active c max a l)
  unfolding prealloc_active
  prealloc_active-IsOnDisk max allocated l xs d =
      let more = max - length l.active_data in
      (
        record {
          earlier = d.earlier;
          later = d.later;
          bytes = d.bytes;
          spare = d.spare + more;
          parts = d.parts;
          before = d.before;
          now = d.now;
          content =
              ap (λ (b : List ℕ). b ++ zeros more) d.content
              ∙ append_assoc d.bytes (zeros d.spare) (zeros more)
              ∙ ap (◌++◌ d.bytes) (zeros-append d.spare more);
          size = d.size;
        },
        refl,
        refl,
      )
  prealloc_active-IsOnDisk max unsupported l xs d = (
    record {
      earlier = d.earlier;
      later = d.later;
      bytes = d.bytes;
      spare = d.spare;
      parts = d.parts;
      before = d.before;
      now = d.now;
      content = d.content;
      size = d.size;
    },
    refl,
    refl,
  )
  prealloc_active-IsOnDisk max alloc_error l xs d = tt

  pub prealloc_active-IsLog :
      (max : ℕ) (a : Allocation) (l : Log H) (xs : List (Record E H))
      → IsLog l xs
      → OnDone (λ l'. IsLog l' xs) (prealloc_active c max a l)
  prealloc_active-IsLog max a l xs k =
      OnDone-map (λ l'. IsOnDisk l' xs × (l'.last_hs ≡ l.last_hs) × (l'.last_index ≡ l.last_index))
        (λ l'. IsLog l' xs) (prealloc_active c max a l) (prealloc_active-IsOnDisk max a l xs k.disk)
        (λ l' (d, eh, ei). record { disk = d; hs = eh ∙ k.hs; index = ei ∙ k.index })

  -- The log holds what the records amount to, whatever was written over.
  abbrev pub Holds : List (Record E H) → Log H → Type 0
  Holds xs l =
      (zs : List (Record E H)) × IsLog l zs × (replay_all c zs empty ≡ replay_all c xs empty)

  pub sync_active-OnDone :
      (P : Log H → Type 0) (b : Bool) (l : Log H) → P l → OnDone P (sync_active b l)
  unfolding sync_active
  sync_active-OnDone P true l h = h
  sync_active-OnDone P false l h = tt

  pub write_active-OnDone :
      (P : Log H → Type 0) (fails : Option ℕ) (buf : List ℕ) (l : Log H)
      → P (record l {
        active_data = write_at l.active_size buf l.active_data;
        active_size = l.active_size + length buf;
      })
      → OnDone P (write_active fails buf l)
  unfolding write_active
  write_active-OnDone P (some n) buf l h = tt
  write_active-OnDone P none buf l h = h

  pub same_disk :
      (l : Log H) (i : ℕ) (hs : Option H) (xs : List (Record E H))
      → IsOnDisk l xs
      → IsOnDisk (record l { last_hs = hs; last_index = i }) xs
  same_disk l i hs xs d = record {
    earlier = d.earlier;
    later = d.later;
    bytes = d.bytes;
    spare = d.spare;
    parts = d.parts;
    before = d.before;
    now = d.now;
    content = d.content;
    size = d.size;
  }
