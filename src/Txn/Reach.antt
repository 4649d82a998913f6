-- ===== src/Txn/Reach.antt =====
-- What can happen to transactional messages, in any order: Stage, End by a client or by an answer to
-- a check, the check of an entry that a pass once read, the delete of keys that do not parse.
use sq.Common.{
  ℕ, ◌≡◌, ◌≢◌, refl, ap, sym, ◌∙◌, Bool, true, false, not, List, [], ◌∷◌, Option, none, some, ltb,
  ◌==◌, ◌||◌, if-elim, Option-cases, length, bytes_eq, inl, inr, ◌⊎◌, none≢some, All,
}
use sq.Message.{Message}
use sq.Deliver.State.{Commit, rejected, unsynced, committed}
use sq.Store.Bytes.{IsU64}
use sq.Store.Order.{in_range}
use sq.Store.Keys.{half_key, half_idx_key, half_prefix, half_scan_upper_bound, parse_half_key}
use sq.Store.Keys.RoundTrip.{parse_half_key-half_key}
use sq.Store.Keys.Halves.{half_idx_key-out}
use sq.Produce.Append.{max_body_size}
use sq.Txn.Records.{Records, get, delete, get-delete_other}
use sq.Txn.Manager.{
  CheckIo, EndIo, Half, Json, apply, clean, delete_all, end_txn, handle, put_half, stage, stamped,
}
use sq.Txn.Pairs.{IsId, IsPaired}

-- The records and the queues, and which transaction ids were given out.
pub record System : Type 0 where
  pub half : Half
  pub issued : List ℕ → Bool

pub data Act : Type 0 where
  staging : List ℕ → Act
  deciding : List ℕ → Bool → Act
  checking : List ℕ → Act
  cleaning : Act

-- A key of the scan for due entries that does not parse.
abbrev pub IsBad : ℕ → List ℕ → Type 0
IsBad now_ms k =
    (in_range half_prefix (some (half_scan_upper_bound now_ms)) k ≡ true)
    × (parse_half_key k ≡ none)

unfoldable pub issue : List ℕ → System → Half → System
issue tx s h = record { half = h; issued = λ u. bytes_eq tx u || s.issued u }

module _ (json : Json) where
  -- The records are paired, and every transaction among them was given its id.
  pub record IsTogether (issued : List ℕ → Bool) (h : Half) : Type 0 where
    pub paired : IsPaired json h.records
    pub known :
        (tx bytes : List ℕ) → get (half_idx_key tx) h.records ≡ some bytes → issued tx ≡ true

module _ (json : Json) (decode : List ℕ → Option Message) (max_checks : ℕ) where
  -- NewMessageID gives out no id twice, and no empty one. An entry that is checked stands as it was
  -- scanned, or its transaction was decided since: no other check moved it.
  pub data Happens : Act → System → System → Type 0 where
    stages :
        {s : System} (ensured : Bool) (encode : Message → Option (List ℕ)) (commit : Commit)
        (now_ms next : ℕ) (new_id tx : List ℕ) (m : Message)
        → IsId tx
        → IsU64 next
        → s.issued tx ≡ false
        → Happens
            (staging tx)
            s
            (issue tx s (stage json ensured encode commit now_ms next new_id tx m s.half).0)
    ends :
        {s : System} (io : EndIo) (tx : List ℕ) (commit : Bool)
        → Happens
            (deciding tx commit)
            s
            (record s { half = (end_txn json decode io tx commit s.half).0 })
    checks :
        {s : System} (io : CheckIo) (ms : ℕ) (tx raw : List ℕ)
        → IsU64 io.next_ms
        → IsU64 ms
        → IsId tx
        → (get (half_idx_key tx) s.half.records ≡ none)
          ⊎ (get (half_key ms tx) s.half.records ≡ some raw)
        → Happens (checking tx) s (record s {
          half =
              (handle json decode max_checks io
                (record { tx_id = tx; raw = raw; half_at = half_key ms tx })
                s.half).0;
        })
    cleans :
        {s : System} (write : Commit) (now_ms : ℕ) (ks : List (List ℕ))
        → All (IsBad now_ms) ks
        → Happens cleaning s (record s { half = (clean write ks s.half).0 })

  pub data Reaches : System → System → Type 0 where
    here : {s : System} → Reaches s s
    next : {a : Act} {s t u : System} → Happens a s t → Reaches t u → Reaches s u

  -- What Stage leaves.
  pub stage_elim :
      (P : Half → Type 0) (ensured : Bool) (encode : Message → Option (List ℕ)) (commit : Commit)
      (now_ms next_ms : ℕ) (new_id tx : List ℕ) (m : Message) (h : Half)
      → P h
      → ((raw : List ℕ) → P (record h { records = put_half json next_ms 0 tx raw h.records }))
      → P (stage json ensured encode commit now_ms next_ms new_id tx m h).0
  unfolding stage
  stage_elim P ensured encode commit now_ms next_ms new_id tx m h same put =
      let Q : Half × Option (List ℕ) → Type 0 = λ x. P x.0 in
      if-elim Q (length m.body == 0 || ltb max_body_size (length m.body)) _ _ (λ e. same)
        (λ e.
          if-elim Q (not ensured) _ _ (λ e. same)
            (λ e. elim (Option-cases (encode (stamped now_ms new_id m))) [
              | inl n ↦ simp n same
              | inr (raw, er) ↦ simp er (written commit raw)
            ]))
    where
      written : (c : Commit) (raw : List ℕ) → P (apply c (put_half json next_ms 0 tx raw) h).0
      written rejected raw = unfold apply in same
      written unsynced raw = unfold apply in put raw
      written committed raw = unfold apply in put raw

  -- What the delete of keys that do not parse leaves.
  pub clean_elim :
      (P : Half → Type 0) (write : Commit) (ks : List (List ℕ)) (h : Half)
      → P h
      → P (record h { records = delete_all ks h.records })
      → P (clean write ks h).0
  unfolding clean apply
  clean_elim P write [] h same gone = same
  clean_elim P rejected (k ∷ ks) h same gone = same
  clean_elim P unsynced (k ∷ ks) h same gone = gone
  clean_elim P committed (k ∷ ks) h same gone = gone

get-delete_all :
    (ks : List (List ℕ)) (j : List ℕ) (t : Records)
    → All (λ k. k ≢ j) ks
    → get j (delete_all ks t) ≡ get j t
unfolding delete_all
get-delete_all [] j t h = refl
get-delete_all (k ∷ ks) j t (hk, h) = get-delete_all ks j (delete k t) h ∙ get-delete_other k j t hk

IsBad-ne_reference :
    (now_ms : ℕ) (u : List ℕ) (ks : List (List ℕ))
    → All (IsBad now_ms) ks
    → All (λ k. k ≢ half_idx_key u) ks
IsBad-ne_reference now_ms u [] h = tt
IsBad-ne_reference now_ms u (k ∷ ks) ((hr, hp), h) = (
  λ e.
      let inside =
        sym (half_idx_key-out now_ms u)
        ∙ ap (in_range half_prefix (some (half_scan_upper_bound now_ms))) (sym e)
        ∙ hr in
      cc,
  IsBad-ne_reference now_ms u ks h,
)

IsBad-ne_entry :
    (now_ms ms : ℕ) (u : List ℕ) (ks : List (List ℕ))
    → IsU64 ms
    → IsId u
    → All (IsBad now_ms) ks
    → All (λ k. k ≢ half_key ms u) ks
IsBad-ne_entry now_ms ms u [] hm i h = tt
IsBad-ne_entry now_ms ms u (k ∷ ks) hm i ((hr, hp), h) = (
  λ e. none≢some (sym hp ∙ ap parse_half_key e ∙ parse_half_key-half_key ms u hm i),
  IsBad-ne_entry now_ms ms u ks hm i h,
)

-- Neither record of a transaction is among the bad keys.
pub clean_reference :
    (now_ms : ℕ) (u : List ℕ) (ks : List (List ℕ)) (t : Records)
    → All (IsBad now_ms) ks
    → get (half_idx_key u) (delete_all ks t) ≡ get (half_idx_key u) t
clean_reference now_ms u ks t h =
    get-delete_all ks (half_idx_key u) t (IsBad-ne_reference now_ms u ks h)

pub clean_entry :
    (now_ms ms : ℕ) (u : List ℕ) (ks : List (List ℕ)) (t : Records)
    → IsU64 ms
    → IsId u
    → All (IsBad now_ms) ks
    → get (half_key ms u) (delete_all ks t) ≡ get (half_key ms u) t
clean_entry now_ms ms u ks t hm i h =
    get-delete_all ks (half_key ms u) t (IsBad-ne_entry now_ms ms u ks hm i h)
