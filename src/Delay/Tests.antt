-- ===== src/Delay/Tests.antt =====
-- Runs of the staging area and the scheduler on small inputs.
use sq.Common.{
  ℕ, ◌+◌, ◌≡◌, ◌≢◌, ◌<◌, ◌≤◌, refl, sym, arith, true, false, List, [], ◌∷◌, ◌++◌, Option, none,
  some, codes, none≢some, ◌^◌, ◌*◌, bytes_eq, length, subst, All,
}
use sq.Message.{Message}
use sq.Deliver.Table.{lookup, delete, insert, Ascends, Table}
use sq.Deliver.State.{committed, rejected}
use sq.Delay.Staging.{append_delay, delay_number, next_delay_seq, stage}
use sq.Delay.Scheduler.{
  Delays, MoveIo, appended, move_one, answer, apply_delete, before, delete_entry, max_move_per_pass,
  pass, recall, recalled, scan_due,
}
use sq.Delay.Reach.{Reaches, System, here, next, moves, stages, ticks}
use sq.Delay.Recall.{start, recall-Settles}
use sq.Delay.Moving.{IsKept, pass-IsKept}
use sq.Delay.Passing.{all_well, onto, outcome, pass-moves}

abbrev message : ℕ → Message
message deliver_at_ms = record {
  id = codes "id";
  topic = codes "orders";
  queue_id = 0;
  offset = 0;
  tag = [];
  keys = [];
  message_group = [];
  properties = [];
  body = 1 ∷ [];
  body_encoding = [];
  body_digest = none;
  born_at_ms = 0;
  born_host = [];
  store_at_ms = 0;
  deliver_at_ms = deliver_at_ms;
  trace_context = [];
  transactional = false;
  delivery_attempt = 0;
}

-- A stored message is its due time.
abbrev decode : List ℕ → Option Message
decode [] = none
decode (due_ms ∷ rest) = some (message due_ms)

-- Two messages are staged at time 5: one is due at 7, the other at 20.
abbrev system : System
system = record {
  delays = record {
    staging = record {
      entries = (7 * 2 ^ 64, 7 ∷ []) ∷ (20 * 2 ^ 64 + 1, 20 ∷ []) ∷ [];
      delay_alloc = some 2;
      delay_next = 2;
      delay_loaded = true;
    };
    queued = [];
  };
  now = 5;
}

system-Reaches : Reaches decode (start 5) system
unfolding append_delay stage next_delay_seq delay_number insert
system-Reaches =
    next (stages true true committed 5 (some (7 ∷ [])) (message 7) (omega arith))
      (next (stages true true committed 5 (some (20 ∷ [])) (message 20) (omega arith)) here)

-- The second message, after its recall.
abbrev after : Delays
after = record (system.delays) {
  staging = record (system.delays.staging) { entries = (7 * 2 ^ 64, 7 ∷ []) ∷ [] };
}

recall_lem :
    recall decode true true committed 5 (codes "orders") 20 1 system.delays
    ≡ (after, recalled (codes "id"))
unfolding recall answer apply_delete delete_entry lookup delete delay_number bytes_eq
recall_lem = refl

-- The scheduler has read the second entry at time 21, before the recall was through.
abbrev late : System
late = record { delays = after; now = 21 }

abbrev second : ℕ
second = delay_number 20 1

abbrev end : System
end = record late { delays = (move_one decode all_well second (20 ∷ []) after).delays }

late-Reaches : Reaches decode (record system { delays = after }) end
unfolding delay_number lookup
late-Reaches =
    next (ticks 21 (omega arith))
      (next (moves all_well second (20 ∷ []) (omega arith) (λ v e. absurd (none≢some e))) here)

recall-Settles_example :
    (lookup second end.delays.queued ≡ none) × (lookup second end.delays.staging.entries ≡ none)
recall-Settles_example =
    recall-Settles decode system end 5 true true committed (codes "orders") 20 1 after (codes "id")
      system-Reaches recall_lem late-Reaches

-- The append succeeds and the delete of the entry fails.
abbrev half_done : MoveIo
half_done = record { reads = true; appending = appended; deletion = rejected }

ascends : Ascends 0 system.delays.staging.entries
ascends = (omega arith, (omega arith, tt))

pass-IsKept_example :
    IsKept (7 * 2 ^ 64) (7 ∷ []) (pass decode true true (λ k. half_done) 8 system.delays).0
pass-IsKept_example =
    pass-IsKept decode true true (λ k. half_done) 8 system.delays (7 * 2 ^ 64) (7 ∷ []) ascends
      (λ e. none≢some (sym e)) (unfold lookup in refl)

due_lem : scan_due 8 system.delays ≡ (7 * 2 ^ 64, 7 ∷ []) ∷ []
unfolding scan_due before delay_number
due_lem = refl

pass-moves_example :
    (rest : Table (List ℕ)) × (system.delays.staging.entries ≡ scan_due 8 system.delays ++ rest)
    × (pass decode true true (λ k. all_well) 8 system.delays
        ≡ outcome system.delays rest
            (onto (scan_due 8 system.delays) [])
            (length (scan_due 8 system.delays)))
    × ((length (scan_due 8 system.delays) < max_move_per_pass)
        → (k : ℕ) (v : List ℕ) → lookup k rest ≡ some v
        → delay_number 9 0 ≤ k)
pass-moves_example =
    pass-moves decode 8 system.delays ascends
      (subst (All (λ x. decode x.1 ≢ none)) (sym due_lem) ((λ e. none≢some (sym e)), tt))
