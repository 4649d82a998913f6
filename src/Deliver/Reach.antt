-- ===== src/Deliver/Reach.antt =====
-- The life of a queue: the calls of the deliverer, one after the other under the queue's lock,
-- between changes of the stored messages by the producers and the retention.
use sq.Common.{
  ℕ, ◌≡◌, sym, arith, true, List, [], ◌∷◌, Option, subst, ◌==◌, Bool-cases, Option-cases, inl, inr,
}
use sq.Message.{Message}
use sq.Deliver.Table.{Table, lookup, delete}
use sq.Deliver.Lease.{Inflight}
use sq.Deliver.State.{
  Queue, cursor_of, Commit, rejected, unsynced, committed, Context, by_client, move_to_dlq,
}
use sq.Deliver.Receive.{Request, Write, delete_inflight, apply_writes, apply_write, receive_once}
use sq.Deliver.Marks.{ordered_at-lookup, ordered_at, present}
use sq.Deliver.Invariant.{IsSound, delete-IsSound, rewrite-IsSound}
use sq.Deliver.Fetching.{IsStored}
use sq.Deliver.Receiving.{IsQueueSound, left, receive_once-IsSound, receive_once-msgs}
use sq.Deliver.Confirm.{
  AckEntry, submit, is_current, ack_all, ack_batch, change_invisible, forward_to_dlq, moved_answer,
  reset_cursor, state_of,
}
use sq.Deliver.Acking.{ack_batch_eq, staged_whole, done}
use sq.Deliver.DeadLetters.{move_elim}

-- One event, with every message decoded by the same decoder.
pub data Happens (decode : List ℕ → Option Message) : Queue → Queue → Type 0 where
  stores :
      {q : Queue} (msgs : Table (List ℕ))
      → IsStored decode 0 msgs
      → Happens decode q (record q { msgs = msgs })
  receives :
      {q : Queue} (c : Context) (r : Request)
      → c.decode ≡ decode
      → Happens decode q (left (receive_once c r q))
  acks :
      {q : Queue} (c : Context) (es : List AckEntry)
      → Happens decode q (state_of (ack_batch c q es))
  changes :
      {q : Queue} (c : Context) (now_ns offset attempt invisible : ℕ)
      → Happens decode q (state_of (change_invisible c q now_ns offset attempt invisible))
  forwards :
      {q : Queue} (c : Context) (offset attempt : ℕ)
      → c.decode ≡ decode
      → Happens decode q (state_of (forward_to_dlq c q offset attempt))
  resets :
      {q : Queue} (c : Context) (offset : ℕ) → Happens decode q (state_of (reset_cursor c q offset))

pub data Reaches (decode : List ℕ → Option Message) : Queue → Queue → Type 0 where
  here : {q : Queue} → Reaches decode q q
  next : {q p s : Queue} → Reaches decode q p → Happens decode p s → Reaches decode q s

-- The messages are in the order of their offsets, and the records are sound.
abbrev pub IsGood : (List ℕ → Option Message) → Queue → Type 0
IsGood decode q = IsStored decode 0 q.msgs × IsQueueSound q

submit-IsGood :
    {A : Type 0} (decode : List ℕ → Option Message) (x : Commit) (q q' : Queue) (a : A)
    → IsGood decode q
    → IsGood decode q'
    → IsGood decode (state_of (submit x q q' a))
unfolding submit
submit-IsGood decode rejected q q' a g g' = g
submit-IsGood decode unsynced q q' a g g' = g'
submit-IsGood decode committed q q' a g g' = g'

ack_all-IsSound :
    (n : ℕ) (t u : Table Inflight) (es : List AckEntry) (ws : List Write)
    → IsSound n (apply_writes ws u)
    → IsSound n (apply_writes (ack_all t es ws).1 u)
unfolding ack_all apply_writes apply_write
ack_all-IsSound n t u [] ws s = s
ack_all-IsSound n t u (e ∷ es) ws s = elim (Bool-cases (is_current t e.offset e.attempt)) [
  | inl h ↦ rw h (
      ack_all-IsSound n t u es (delete_inflight e.offset ∷ ws)
        (delete-IsSound n e.offset (apply_writes ws u) s))
  | inr h ↦ rw h (ack_all-IsSound n t u es ws s)
]

delete-IsGood :
    (decode : List ℕ → Option Message) (q : Queue) (offset : ℕ)
    → IsGood decode q
    → IsGood decode (record q { inflight = delete offset q.inflight })
unfolding cursor_of
delete-IsGood decode q offset (st, s) = (st, delete-IsSound (cursor_of q) offset q.inflight s)

ack_batch-IsGood :
    (decode : List ℕ → Option Message) (c : Context) (q : Queue) (es : List AckEntry)
    → IsGood decode q
    → IsGood decode (state_of (ack_batch c q es))
unfolding cursor_of apply_writes
ack_batch-IsGood decode c q es (st, s) =
    subst (λ x. IsGood decode (state_of x)) (sym (ack_batch_eq c q es))
      (elim (staged_whole c q (done q es).0 (done q es).1) [
        | inl e ↦ subst (IsGood decode) (sym e) (st, s)
        | inr e ↦
            subst (IsGood decode) (sym e)
              (st, ack_all-IsSound (cursor_of q) q.inflight q.inflight es [] s)
      ])

change_invisible-IsGood :
    (decode : List ℕ → Option Message) (c : Context) (q : Queue)
    (now_ns offset attempt invisible : ℕ)
    → IsGood decode q
    → IsGood decode (state_of (change_invisible c q now_ns offset attempt invisible))
unfolding change_invisible
change_invisible-IsGood decode c q now_ns offset attempt invisible (st, s) =
    elim (Option-cases (lookup offset q.inflight)) [
      | inl e ↦ rw (state_of, e) (st, s)
      | inr (rec, e) ↦ elim (Bool-cases (rec.attempts == attempt)) [
        | inr f ↦ rw (state_of, e, f) (st, s)
        | inl f ↦
            let (o, p) = ordered_at-lookup offset q.inflight e in
            rw (state_of, e, f)
              (submit-IsGood decode c.commit q _ true (st, s)
                (
                  st,
                  (unfold cursor_of in
                      rewrite-IsSound (cursor_of q) offset _ q.inflight s (s.below offset p)
                        (sym o)),
                ))
      ]
    ]

moved-IsGood :
    (decode : List ℕ → Option Message) (c : Context) (q : Queue) (offset attempt : ℕ) (m : Message)
    → IsGood decode q
    → IsGood decode (state_of (moved_answer (move_to_dlq c q offset m attempt by_client)))
unfolding moved_answer cursor_of
moved-IsGood decode c q offset attempt m g =
    let gone = delete-IsGood decode q offset g in
    move_elim c q offset m attempt by_client (λ x. IsGood decode (state_of (moved_answer x))) g g
      gone gone

forward_to_dlq-IsGood :
    (decode : List ℕ → Option Message) (c : Context) (q : Queue) (offset attempt : ℕ)
    → IsGood decode q
    → IsGood decode (state_of (forward_to_dlq c q offset attempt))
unfolding forward_to_dlq
forward_to_dlq-IsGood decode c q offset attempt g =
    elim (Bool-cases (is_current q.inflight offset attempt)) [
      | inr h ↦ rw (state_of, h) g
      | inl h ↦ elim (Option-cases (lookup offset q.msgs)) [
        | inl e ↦
            rw (state_of, h, e)
              (submit-IsGood decode c.commit q _ true g (delete-IsGood decode q offset g))
        | inr (raw, e) ↦ elim (Option-cases (c.decode raw)) [
          | inl f ↦ rw (state_of, h, e, f) g
          | inr (m, f) ↦ rw (state_of, h, e, f) (moved-IsGood decode c q offset attempt m g)
        ]
      ]
    ]

reset_cursor-IsGood :
    (decode : List ℕ → Option Message) (c : Context) (q : Queue) (offset : ℕ)
    → IsGood decode q
    → IsGood decode (state_of (reset_cursor c q offset))
unfolding reset_cursor
reset_cursor-IsGood decode c q offset g = submit-IsGood decode c.commit q _ true g (
  g.0,
  record {
    ascends = tt;
    one_ordered = λ i j hi hj. (unfold ordered_at lookup in absurd (ground arith));
    below = λ i hi. (unfold present lookup in absurd (ground arith));
  },
)

Happens-IsGood :
    (decode : List ℕ → Option Message) (q q' : Queue)
    → Happens decode q q'
    → IsGood decode q
    → IsGood decode q'
unfolding cursor_of
Happens-IsGood decode q q' (stores msgs st) g = (st, g.1)
Happens-IsGood decode q q' (receives c r e) g =
    (rw (receive_once-msgs c r q) g.0, receive_once-IsSound c r q (rw e g.0) g.1)
Happens-IsGood decode q q' (acks c es) g = ack_batch-IsGood decode c q es g
Happens-IsGood decode q q' (changes c now_ns offset attempt invisible) g =
    change_invisible-IsGood decode c q now_ns offset attempt invisible g
Happens-IsGood decode q q' (forwards c offset attempt e) g =
    forward_to_dlq-IsGood decode c q offset attempt g
Happens-IsGood decode q q' (resets c offset) g = reset_cursor-IsGood decode c q offset g

-- In every queue that is reached from one with sound records and with its messages in the order of
-- their offsets, by any sequence of receives, acknowledgements, changes of the invisible time,
-- forwards and cursor resets, each with its own clock, lease, filter and outcome of the commit but
-- one decoder, between any changes that keep the stored messages in that order, the delivery records
-- stand in the order of their offsets and all before the cursor, and at most one of them holds the
-- order lock.
pub Reaches-IsGood :
    (decode : List ℕ → Option Message) (q q' : Queue)
    → Reaches decode q q'
    → IsGood decode q
    → IsGood decode q'
Reaches-IsGood decode q q' here g = g
Reaches-IsGood decode q q' (next way step) g =
    Happens-IsGood decode _ q' step (Reaches-IsGood decode q _ way g)
