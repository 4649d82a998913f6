-- ===== src/Produce/Offsets.antt =====
-- The messages of a queue stand in the order of their offsets, each under its own: what the
-- deliverer relies on (Deliver.Fetching).
use sq.Common.{
  ℕ, suc, ◌+◌, ◌%◌, ◌^◌, ◌<◌, ◌≤◌, ◌≡◌, refl, ap, sym, arith, Bool, true, false, List, [], ◌∷◌,
  Option, none, some, All, Option-cases, inl, inr, ◌==◌, ltb, if-elim, length, bind-some, some-inj,
  subst,
}
use sq.Message.{Message}
use sq.Deliver.Table.{Table, insert}
use sq.Deliver.Fetching.{IsStored}
use sq.Produce.Append.{
  BatchFate, refused_batch, dropped_batch, unsynced_batch, committed_batch, skip_offsets, Producing,
  Setting, Shelf, advance, append, append_batch, append_in_turn, choose_queue, fill_in, fill_in_all,
  has_body, all_plain, invalidate, next_offset, put_all, put_message, set_shelf, turned,
  write_batch, write_to,
}

abbrev Below : ℕ → Table (List ℕ) → Type 0
Below n t = All (λ x. x.0 < n) t

abbrev stored_next : Shelf → ℕ
stored_next s = elim s.alloc [ none ↦ 0 | some n ↦ n ]

next_offset-reloaded : (s : Shelf) → next_offset (record s { loaded = false }) ≡ stored_next s
unfolding next_offset
next_offset-reloaded s = refl

-- A queue before its first message.
abbrev pub no_messages : Shelf
no_messages = record { msgs = []; alloc = none; key_index = []; next = 0; loaded = false }

module _ (decode : List ℕ → Option Message) where
  -- What is encoded is decoded with its offset.
  abbrev pub KeepsOffset : (Message → Option (List ℕ)) → Type 0
  KeepsOffset encode =
      (m : Message) (raw : List ℕ)
      → encode m ≡ some raw
      → (m' : Message) → decode raw ≡ some m'
      → m'.offset ≡ m.offset

  -- The counter in memory is the one on disk or ahead of it, and no message stands at the one on
  -- disk or behind it.
  pub record IsShelf (s : Shelf) : Type 0 where
    pub counter : stored_next s ≤ next_offset s
    pub stored : IsStored decode 0 s.msgs
    pub below : Below (stored_next s) s.msgs

  Below-mono : (m n : ℕ) (t : Table (List ℕ)) → m ≤ n → Below m t → Below n t
  Below-mono m n [] h b = tt
  Below-mono m n ((k, raw) ∷ t) h (bk, b) = (omega arith, Below-mono m n t h b)

  pub no_messages-IsShelf : IsShelf no_messages
  unfolding next_offset
  no_messages-IsShelf = record { counter = omega arith; stored = tt; below = tt }

  insert-IsStored :
      (n k : ℕ) (raw : List ℕ) (t : Table (List ℕ))
      → IsStored decode n t
      → Below k t
      → n ≤ k
      → k + 1 < 2 ^ 64
      → ((m : Message) → decode raw ≡ some m → m.offset ≡ k)
      → IsStored decode n (insert k raw t)
  unfolding insert
  insert-IsStored n k raw [] s b h fits own = (h, fits, own, tt)
  insert-IsStored n k raw ((j, w) ∷ t) (hj, fj, oj, s) (bj, b) h fits own =
      let first : ltb k j ≡ false = ground arith in
      let other : (j == k) ≡ false = ground arith in
      rw (first, other) (hj, fj, oj, insert-IsStored (j + 1) k raw t s b (omega arith) fits own)

  insert-Below :
      (k : ℕ) (raw : List ℕ) (t : Table (List ℕ)) → Below k t → Below (k + 1) (insert k raw t)
  unfolding insert
  insert-Below k raw [] b = (omega arith, tt)
  insert-Below k raw ((j, w) ∷ t) (bj, b) =
      let first : ltb k j ≡ false = ground arith in
      let other : (j == k) ≡ false = ground arith in
      rw (first, other) (omega arith, insert-Below k raw t b)

  put_all-IsStored :
      (encode : Message → Option (List ℕ)) (q offset : ℕ) (ms : List Message) (s w : Shelf)
      → KeepsOffset encode
      → offset + length ms < 2 ^ 64
      → IsStored decode 0 s.msgs
      → Below offset s.msgs
      → put_all encode q offset ms s ≡ some w
      → IsStored decode 0 w.msgs × Below (offset + length ms) w.msgs
  unfolding put_all put_message
  put_all-IsStored encode q offset [] s w keeps room st b e =
      subst (λ (x : Shelf). IsStored decode 0 x.msgs × Below (offset + 0) x.msgs) (some-inj e)
        (st, subst (λ (n : ℕ). Below n s.msgs) (omega arith) b)
  put_all-IsStored encode q offset (m ∷ ms) s w keeps room st b e =
      let placed : Message = record m { queue_id = q; offset = offset } in
      let (raw, er, rest) =
        bind-some (encode placed)
          (λ raw. put_all encode q (offset + 1) ms (put_message placed raw s)) w e in
      let (st2, b2) =
        put_all-IsStored encode q (offset + 1) ms (put_message placed raw s) w keeps (omega arith)
          (insert-IsStored 0 offset raw s.msgs st b (omega arith) (omega arith)
            (keeps placed raw er))
          (insert-Below offset raw s.msgs b) rest in
      (st2, subst (λ (n : ℕ). Below n w.msgs) (omega arith) b2)

  advance-IsShelf :
      (n : ℕ) (s : Shelf) → IsStored decode 0 s.msgs → Below n s.msgs → IsShelf (advance n s)
  unfolding advance next_offset
  advance-IsShelf n s st b = record { counter = omega arith; stored = st; below = b }

  skip_offsets-IsShelf :
      (n : ℕ) (s : Shelf) → next_offset s ≤ n → IsShelf s → IsShelf (skip_offsets n s)
  unfolding skip_offsets
  skip_offsets-IsShelf n s h k = record {
    counter = let c = k.counter in (unfold next_offset in omega (arith, c, h));
    stored = k.stored;
    below = k.below;
  }

  write_batch-IsShelf :
      (c : Setting) (q : ℕ) (ms : List Message) (s : Shelf)
      → KeepsOffset c.encode
      → next_offset s + length ms < 2 ^ 64
      → IsShelf s
      → IsShelf (write_batch c q ms s).0
  unfolding write_batch
  write_batch-IsShelf c q ms s keeps room k =
      elim (Option-cases (put_all c.encode q (next_offset s) ms s)) [
        | inl n ↦ simp (write_batch, n) k
        | inr (w, e) ↦
            let (st, b) =
              put_all-IsStored c.encode q (next_offset s) ms s w keeps room k.stored
                (Below-mono (stored_next s) (next_offset s) s.msgs k.counter k.below) e in
            simp (write_batch, e)
              (fates c.fate w (advance-IsShelf (next_offset s + length ms) w st b))
      ]
    where
      fates :
          (x : BatchFate) (w : Shelf)
          → IsShelf (advance (next_offset s + length ms) w)
          → IsShelf
              (elim x as (λ z. Shelf × Bool) [
                | refused_batch ↦ (s, false)
                | dropped_batch ↦ (skip_offsets (next_offset s + length ms) s, false)
                | unsynced_batch ↦ (advance (next_offset s + length ms) w, false)
                | committed_batch ↦ (advance (next_offset s + length ms) w, true)
              ]).0
      fates refused_batch w h = k
      fates dropped_batch w h = skip_offsets-IsShelf (next_offset s + length ms) s (omega arith) k
      fates unsynced_batch w h = h
      fates committed_batch w h = h

  -- Every queue of the topic is in order, and none is at its end.
  abbrev pub AreShelves : Producing → Type 0
  AreShelves p = (q : ℕ) → IsShelf (p.shelves q)

  abbrev pub HasRoom : ℕ → Producing → Type 0
  HasRoom n p = (q : ℕ) → next_offset (p.shelves q) + n < 2 ^ 64

  write_to-AreShelves :
      (c : Setting) (q : ℕ) (ms : List Message) (p : Producing)
      → KeepsOffset c.encode
      → HasRoom (length ms) p
      → AreShelves p
      → AreShelves (write_to c q ms p).0
  unfolding write_to set_shelf
  write_to-AreShelves c q ms p keeps room k j =
      if-elim IsShelf (j == q) (write_batch c q ms (p.shelves q)).0 (p.shelves j)
        (λ e. write_batch-IsShelf c q ms (p.shelves q) keeps (room q) (k q)) (λ e. k j)

  append_in_turn-AreShelves :
      (c : Setting) (queues given : ℕ) (ms : List Message) (p : Producing)
      → KeepsOffset c.encode
      → HasRoom (length ms) p
      → AreShelves p
      → AreShelves (append_in_turn c queues given ms p).0
  unfolding append_in_turn
  append_in_turn-AreShelves c queues given ms p keeps room k =
      let q = choose_queue c.leads p.rr queues given in
      if-elim (λ (x : Producing × Bool). AreShelves x.0) (c.leads q) _ _
        (λ e. write_to-AreShelves c q ms (turned p) keeps room k) (λ e. k)

  append-AreShelves :
      (c : Setting) (m : Message) (p : Producing)
      → KeepsOffset c.encode
      → HasRoom 1 p
      → AreShelves p
      → AreShelves (append c m p).0
  unfolding append
  append-AreShelves c m p keeps room k =
      let Q : Producing × Bool → Type 0 = λ x. AreShelves x.0 in
      let ms = fill_in c 0 m ∷ [] in
      elim (Option-cases c.ensured) [
        | inl n ↦ simp (append, n) (if-elim Q (has_body m) _ _ (λ e. k) (λ e. k))
        | inr (queues, e) ↦
            simp (append, e)
              (if-elim Q (has_body m) _ _
                (λ e.
                  if-elim Q (length m.message_group == 0) _ _
                    (λ e. append_in_turn-AreShelves c queues m.queue_id ms p keeps room k)
                    (λ e.
                      write_to-AreShelves c (c.fnv32a m.message_group % queues) ms p keeps room k))
                (λ e. k))
      ]

  length-fill_in_all :
      (c : Setting) (i : ℕ) (ms : List Message) → length (fill_in_all c i ms) ≡ length ms
  unfolding fill_in_all
  length-fill_in_all c i [] = refl
  length-fill_in_all c i (m ∷ ms) = ap suc (length-fill_in_all c (i + 1) ms)

  append_batch-AreShelves :
      (c : Setting) (ms : List Message) (p : Producing)
      → KeepsOffset c.encode
      → HasRoom (length ms) p
      → AreShelves p
      → AreShelves (append_batch c ms p).0
  unfolding append_batch
  append_batch-AreShelves c [] p keeps room k = k
  append_batch-AreShelves c (m ∷ ms) p keeps room k =
      let Q : Producing × Bool → Type 0 = λ x. AreShelves x.0 in
      let all = fill_in_all c 0 (m ∷ ms) in
      let fits : HasRoom (length all) p =
        subst (λ (n : ℕ). HasRoom n p) (sym (length-fill_in_all c 0 (m ∷ ms))) room in
      elim (Option-cases c.ensured) [
        | inl n ↦
            simp (append_batch, n) (if-elim Q (all_plain m.topic (m ∷ ms)) _ _ (λ e. k) (λ e. k))
        | inr (queues, e) ↦
            simp (append_batch, e)
              (if-elim Q (all_plain m.topic (m ∷ ms)) _ _
                (λ e. append_in_turn-AreShelves c queues 0 all p keeps fits k) (λ e. k))
      ]

  -- The calls on the topic, one after the other.
  pub data Happens : Producing → Producing → Type 0 where
    appends :
        {p : Producing} (c : Setting) (m : Message)
        → KeepsOffset c.encode
        → HasRoom 1 p
        → Happens p (append c m p).0
    appends_batch :
        {p : Producing} (c : Setting) (ms : List Message)
        → KeepsOffset c.encode
        → HasRoom (length ms) p
        → Happens p (append_batch c ms p).0
    invalidates : {p : Producing} → Happens p (invalidate p)

  pub data Reaches : Producing → Producing → Type 0 where
    here : {p : Producing} → Reaches p p
    next : {p r s : Producing} → Happens p r → Reaches r s → Reaches p s

  invalidate-AreShelves : (p : Producing) → AreShelves p → AreShelves (invalidate p)
  unfolding invalidate
  invalidate-AreShelves p k q =
      let s = p.shelves q in
      let h = k q in
      record { counter = (unfold next_offset in omega arith); stored = h.stored; below = h.below }

  pub Happens-AreShelves : (p r : Producing) → Happens p r → AreShelves p → AreShelves r
  Happens-AreShelves p r (appends c m keeps room) k = append-AreShelves c m p keeps room k
  Happens-AreShelves p r (appends_batch c ms keeps room) k =
      append_batch-AreShelves c ms p keeps room k
  Happens-AreShelves p r invalidates k = invalidate-AreShelves p k

  Reaches-AreShelves : (p r : Producing) → Reaches p r → AreShelves p → AreShelves r
  Reaches-AreShelves p r here k = k
  Reaches-AreShelves p r (next {r = s} h more) k =
      Reaches-AreShelves s r more (Happens-AreShelves p s h k)

  -- From empty queues, whatever is appended, singly or in batches, whichever batches are refused,
  -- are ordered and never applied, or fail to reach the disk, and whenever the counters are read
  -- again, the messages of each queue stand in the order of their offsets, each under the offset that
  -- it holds.
  pub Reaches-IsStored :
      (p r : Producing)
      → ((q : ℕ) → p.shelves q ≡ no_messages)
      → Reaches p r
      → (q : ℕ) → IsStored decode 0 (r.shelves q).msgs
  Reaches-IsStored p r fresh run q =
      let k : AreShelves p = λ j. subst IsShelf (sym (fresh j)) no_messages-IsShelf in
      (Reaches-AreShelves p r run k q).stored
