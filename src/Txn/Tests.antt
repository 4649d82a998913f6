-- ===== src/Txn/Tests.antt =====
-- Runs of the transaction manager on small inputs.
use sq.Common.{
  ℕ, ◌≡◌, ◌≢◌, ◌+◌, refl, arith, Bool, true, false, List, [], ◌∷◌, Option, none, some, codes,
  length, bytes_eq, inr,
}
use sq.Message.{Message}
use sq.Deliver.State.{committed}
use sq.Delay.Scheduler.{appended}
use sq.Store.Bytes.{IsU64, big_endian, put_u64}
use sq.Store.Order.{lex_lt}
use sq.Store.Keys.{half_key, half_idx_key, half_prefix, half_scan_upper_bound}
use sq.Txn.Records.{get, set, delete, scan}
use sq.Txn.Manager.{
  EndIo, Half, HalfRef, Json, answer, answered, apply, commit_half, decide_half, drop_both, end_ref,
  end_txn, enqueue, handle, max_check_per_pass, pass, put_half, stage,
}
use sq.Txn.Pairs.{Waits}
use sq.Txn.Reach.{
  IsTogether, Reaches, System, checking, checks, deciding, ends, here, issue, next, stages,
}
use sq.Txn.Good.{Reaches-IsTogether, start, start-IsTogether}
use sq.Txn.Once.{copies, decided-stays}
use sq.Txn.Kept.{Happens-IsKept, IsKept}
use sq.Txn.Checks.{check_rounds, check_rounds_end, well}
use sq.Txn.Passing.{all_well, pass-handles}

abbrev json : Json
json = record {
  marshal = λ r. r.next_check_ms ∷ r.checks ∷ [];
  unmarshal = unmarshal;
  unmarshal-marshal = λ r. refl;
}
  where
    unmarshal : List ℕ → Option HalfRef
    unmarshal (a ∷ b ∷ []) = some (record { next_check_ms = a; checks = b })
    unmarshal bytes = none

abbrev message : Message
message = record {
  id = codes "id";
  topic = codes "orders";
  queue_id = 0;
  offset = 0;
  tag = [];
  keys = [];
  message_group = [];
  properties = [];
  body = 1 ∷ [];
  body_encoding = [];
  body_digest = none;
  born_at_ms = 0;
  born_host = [];
  store_at_ms = 0;
  deliver_at_ms = 0;
  trace_context = [];
  transactional = true;
  delivery_attempt = 0;
}

-- A stored message is a byte.
abbrev encode : Message → Option (List ℕ)
encode m = some (9 ∷ [])

abbrev decode : List ℕ → Option Message
decode [] = none
decode (b ∷ rest) = some message

abbrev tx : List ℕ
tx = codes "a1"

-- One transaction is staged at time 0, to be checked at 30000.
abbrev staged : System
staged = issue tx start (stage json true encode committed 0 30000 tx tx message start.half).0

abbrev end_io : EndIo
end_io = record {
  reads_ref = true;
  leads_meta = true;
  reads_half = true;
  appending = appended;
  deletion = committed;
}

abbrev committed_half : Half
committed_half = record { records = []; queued = (tx, 9 ∷ []) ∷ []; checked = 0; dropped = 0 }

end_run : end_txn json decode end_io tx true staged.half ≡ (committed_half, answered true)
unfolding end_txn end_ref decide_half commit_half answer apply enqueue drop_both get set delete
    half_key half_idx_key put_u64 big_endian bytes_eq lex_lt issue stage put_half
end_run = refl

staged-Reaches : Reaches json decode 2 start staged
staged-Reaches =
    next (stages true encode committed 0 30000 tx tx message (omega arith) (omega arith) refl) here

staged-Waits :
    Waits json staged.half.records tx (record { next_check_ms = 30000; checks = 0 }) (9 ∷ [])
unfolding issue stage apply put_half get set half_key half_idx_key put_u64 big_endian bytes_eq
    lex_lt
staged-Waits = record {
  bytes = 30000 ∷ 0 ∷ [];
  reference = refl;
  reads = refl;
  entry = refl;
  is_u64 = omega arith;
}

staged-IsTogether : IsTogether json staged.issued staged.half
staged-IsTogether =
    Reaches-IsTogether json decode 2 start staged staged-Reaches (start-IsTogether json decode 2)

Reaches-IsTogether_example : IsTogether json staged.issued staged.half
Reaches-IsTogether_example =
    Reaches-IsTogether json decode 2 start staged staged-Reaches (start-IsTogether json decode 2)

abbrev decided : System
decided = record staged { half = committed_half }

-- A second commit comes after the first.
abbrev again : System
again = record decided { half = (end_txn json decode end_io tx true decided.half).0 }

decided-stays_example :
    (get (half_idx_key tx) again.half.records ≡ none)
    × ((ms : ℕ) → IsU64 ms → get (half_key ms tx) again.half.records ≡ none)
    × (copies tx again.half.queued ≡ copies tx staged.half.queued + 1)
    × ((io : EndIo) (c : Bool) → (end_txn json decode io tx c again.half).1 ≢ answered true)
decided-stays_example =
    decided-stays json decode 2 staged again end_io tx true committed_half staged-Reaches end_run
      (next (ends end_io tx true) here)

abbrev checked : System
checked = record staged {
  half =
      (handle json decode 2 (well 60000)
        (record { tx_id = tx; raw = 9 ∷ []; half_at = half_key 30000 tx }) staged.half).0;
}

Happens-IsKept_example : IsKept json tx (9 ∷ []) (copies tx staged.half.queued) checked.half
Happens-IsKept_example =
    Happens-IsKept json decode 2 (checking tx) staged checked tx (9 ∷ [])
      (record { next_check_ms = 30000; checks = 0 }) message
      (checks (well 60000) 30000 tx (9 ∷ []) (omega arith) (omega arith) (omega arith)
        (inr staged-Waits.entry))
      staged-IsTogether staged-Waits refl (omega arith) not_a_rollback
  where
    not_a_rollback : checking tx ≢ deciding tx false
    not_a_rollback e = cc

abbrev times : List ℕ
times = 60000 ∷ 90000 ∷ 120000 ∷ 150000 ∷ []

check_rounds_end_example :
    ((check_rounds json 2 (half_key 30000 tx) tx times staged.half).1 ≡ 2)
    × (get
          (half_idx_key tx)
          (check_rounds json 2 (half_key 30000 tx) tx times staged.half).0.records
        ≡ none)
check_rounds_end_example =
    check_rounds_end json 2 (half_key 30000 tx) tx times staged.half
      (record { next_check_ms = 30000; checks = 0 }) (9 ∷ []) (omega arith) staged-IsTogether.paired
      staged-Waits (omega arith) (omega arith) (omega arith)

-- A key that does not parse, a reference that cannot be read and its entry.
abbrev damaged : Half
damaged = record {
  records = (half_key 7 [], []) ∷ (half_key 8 tx, 9 ∷ []) ∷ (half_idx_key tx, []) ∷ [];
  queued = [];
  checked = 0;
  dropped = 0;
}

pass-handles_example :
    ((pass json decode true true committed 2
        (all_well json decode 2 (λ u. 60000))
        10
        damaged).failed
      ≡ false)
    × ((pass json decode true true committed 2
          (all_well json decode 2 (λ u. 60000))
          10
          damaged).handled
        ≡ length (scan half_prefix (half_scan_upper_bound 10) max_check_per_pass damaged.records))
pass-handles_example = pass-handles json decode 2 (λ u. 60000) 10 damaged
