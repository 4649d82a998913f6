-- ===== src/Deliver/Confirm.antt =====
-- The confirmations of internal/core/deliver/deliver.go: Ack, AckBatch, ChangeInvisible,
-- ForwardToDLQ and ResetCursor. Each runs under the queue's lock.
use sq.Common.{ℕ, ◌+◌, ◌/◌, Bool, true, false, List, [], ◌∷◌, none, some, ◌==◌, if◌then◌else◌}
use sq.Deliver.Table.{Table, lookup, insert, delete}
use sq.Deliver.Lease.{Inflight}
use sq.Deliver.State.{Queue, Commit, rejected, unsynced, committed, Context, by_client, move_to_dlq}
use sq.Deliver.Receive.{Write, delete_inflight, apply_writes}

pub record AckEntry : Type 0 where
  pub offset : ℕ
  pub attempt : ℕ

pub record AckResult : Type 0 where
  pub offset : ℕ
  pub ok : Bool

-- What a call returns beside the state it leaves: an error, or a value.
pub data Answer (A : Type 0) : Type 0 where
  erred : Queue → Answer A
  answered : Queue → A → Answer A

-- The end of a call whose batch turns the first state into the second.
unfoldable pub submit : {A : Type 0} → Commit → Queue → Queue → A → Answer A
submit rejected before after a = erred before
submit unsynced before after a = erred after
submit committed before after a = answered after a

-- The handle's delivery is the current one: the record is there, with this attempt.
unfoldable pub is_current : Table Inflight → ℕ → ℕ → Bool
is_current t offset attempt = elim (lookup offset t) [
  | none ↦ false
  | some st ↦ st.attempts == attempt
]

-- The loop of AckBatch. Every entry is checked against the committed records; the deletes wait in
-- the batch, newest first.
unfoldable pub ack_all : Table Inflight → List AckEntry → List Write → List AckResult × List Write
ack_all t [] writes = ([], writes)
ack_all t (e ∷ es) writes =
    let ok = is_current t e.offset e.attempt in
    let rest = ack_all t es (if ok then delete_inflight e.offset ∷ writes else writes) in
    (record { offset = e.offset; ok = ok } ∷ rest.0, rest.1)

unfoldable pub ack_staged : Context → Queue → List AckResult → List Write → Answer (List AckResult)
ack_staged c q results [] = answered q results
ack_staged c q results (w ∷ ws) =
    submit c.commit q (record q { inflight = apply_writes (w ∷ ws) q.inflight }) results

unfoldable pub ack_batch : Context → Queue → List AckEntry → Answer (List AckResult)
ack_batch c q [] = answered q []
ack_batch c q (e ∷ es) = let done = ack_all q.inflight (e ∷ es) [] in ack_staged c q done.0 done.1

-- Ack is a batch of one.
unfoldable pub first_ok : Answer (List AckResult) → Answer Bool
first_ok (erred q) = erred q
first_ok (answered q []) = answered q false
first_ok (answered q (a ∷ rest)) = answered q a.ok

unfoldable pub ack : Context → Queue → ℕ → ℕ → Answer Bool
ack c q offset attempt =
    first_ok (ack_batch c q (record { offset = offset; attempt = attempt } ∷ []))

-- ChangeInvisible: time.Now() is in nanoseconds here, and so is `invisible`.
unfoldable pub change_invisible : Context → Queue → ℕ → ℕ → ℕ → ℕ → Answer Bool
change_invisible c q now_ns offset attempt invisible = elim (lookup offset q.inflight) [
  | none ↦ answered q false
  | some st ↦
      if st.attempts == attempt
      then submit c.commit q
          (record q {
            inflight =
                insert offset (record st { expire_at_ms = (now_ns + invisible) / 1_000_000 })
                  q.inflight;
          })
          true
      else answered q false
]

unfoldable pub moved_answer : Queue × Bool → Answer Bool
moved_answer (q, true) = answered q true
moved_answer (q, false) = erred q

-- ForwardToDLQ. A record whose message is gone is deleted.
unfoldable pub forward_to_dlq : Context → Queue → ℕ → ℕ → Answer Bool
forward_to_dlq c q offset attempt =
    if is_current q.inflight offset attempt
    then elim (lookup offset q.msgs) [
      | none ↦ submit c.commit q (record q { inflight = delete offset q.inflight }) true
      | some raw ↦ elim (c.decode raw) [
        | none ↦ erred q
        | some m ↦ moved_answer (move_to_dlq c q offset m attempt by_client)
      ]
    ]
    else answered q false

-- ResetCursor: the cursor is set, every record under the queue's prefix is deleted.
unfoldable pub reset_cursor : Context → Queue → ℕ → Answer Bool
reset_cursor c q offset = submit c.commit q (record q { inflight = []; cursor = some offset }) true

abbrev pub state_of : {A : Type 0} → Answer A → Queue
state_of (erred q) = q
state_of (answered q a) = q
