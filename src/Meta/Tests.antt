-- ===== src/Meta/Tests.antt =====
-- The rules of names at concrete names.
use sq.Common.{pos, negsuc, ◌*◌, ◌≤◌, ◌↔◌, true, ◌≡◌, ◌≢◌, codes, refl, List, [], ◌∷◌, ℕ, arith}
use sq.Meta.Names.{
  validate_name, dlq_topic_name, validate_name-dlq_topic_name, name_chars, name_char,
}
use sq.Meta.Durations.{effective_retention-exact}
use sq.Meta.Registry.{
  effective_retention, TopicConfig, Registry, Persist, kept, unsure, lost, reload,
}
use sq.Meta.Upkeep.{IsRegistry, Call, ensures, retains, registers, drops_topic, run}
use sq.Meta.Consistency.{IsSynced, run-IsSynced}

validate_name-dlq_topic_name_example : validate_name (dlq_topic_name (codes "billing")) ≡ true
unfolding validate_name name_chars name_char
validate_name-dlq_topic_name_example = validate_name-dlq_topic_name (codes "billing") refl

abbrev empty : Registry
empty = record {
  auto_create = true;
  default_queues = 4;
  group_attempts = 16;
  topics = [];
  groups = [];
  stored_topics = [];
  stored_groups = [];
}

empty-IsRegistry : IsRegistry empty
empty-IsRegistry = record {
  attempts = omega arith;
  topics = tt;
  groups = tt;
  stored_topics = tt;
  stored_groups = tt;
}

abbrev calls : List (Persist × ℕ × Call)
calls =
    (kept, 1, ensures (codes "orders"))
    ∷ (unsure, 2, retains (codes "orders") 5_000)
    ∷ (kept, 3, registers (codes "billing"))
    ∷ (lost, 4, drops_topic (codes "orders"))
    ∷ []

run-IsSynced_example :
    (kept ≢ unsure → IsSynced (run kept 1 (ensures (codes "orders")) empty))
    × IsSynced (reload (run kept 1 (ensures (codes "orders")) empty))
run-IsSynced_example =
    run-IsSynced kept 1 (ensures (codes "orders")) empty empty-IsRegistry (refl, refl)

abbrev kept_for : ℕ → TopicConfig
kept_for ms = record { name = codes "orders"; queues = 4; created_at_ms = 0; retention_ms = ms }

effective_retention-exact_example :
    (effective_retention (kept_for 86_400_000) ≡ pos (86_400_000 * 1_000_000))
    ↔ (86_400_000 ≤ 9223372036854)
effective_retention-exact_example = effective_retention-exact (kept_for 86_400_000) (omega arith)

-- 317 years wrap around to a negative duration.
wrapped_run : effective_retention (kept_for 10_000_000_000_000) ≡ negsuc 8_446_744_073_709_551_615
unfolding effective_retention
wrapped_run = refl
