-- ===== src/Meta/Upkeep.antt =====
-- What every call keeps of the registry.
use sq.Common.{
  ℕ, ◌≤◌, ◌≡◌, refl, sym, ◌∙◌, ap, arith, Bool, true, false, not, List, [], ◌∷◌, if◌then◌else◌, leb,
  All, Bool-cases, Option-cases, inl, inr,
}
use sq.Meta.Names.{validate_name}
use sq.Meta.NameMap.{NameMap, get, All-get}
use sq.Meta.Registry.{
  TopicConfig, GroupConfig, Registry, Persist, lost, unsure, kept, topic_not_found, denied,
  registry_of, write_through, put_topic, create_topic, ensure_topic, put_group, ensure_group,
  update_topic_retention, delete_topic, delete_group, load_topics, load_groups, reload,
}

abbrev pub IsTopic : List ℕ × TopicConfig → Type 0
IsTopic e =
    (e.1.name ≡ e.0) × (validate_name e.0 ≡ true) × (1 ≤ e.1.queues) × (1 ≤ e.1.retention_ms)

abbrev pub IsGroup : List ℕ × GroupConfig → Type 0
IsGroup e = (e.1.name ≡ e.0) × (validate_name e.0 ≡ true) × (1 ≤ e.1.max_attempts)

-- Every entry stands under its own valid name and its numbers are not zero.
pub record IsRegistry (r : Registry) : Type 0 where
  pub attempts : 1 ≤ r.group_attempts
  pub topics : All IsTopic r.topics
  pub groups : All IsGroup r.groups
  pub stored_topics : All IsTopic r.stored_topics
  pub stored_groups : All IsGroup r.stored_groups

-- The calls that change the registry.
pub data Call : Type 0 where
  creates : List ℕ → ℕ → Call
  ensures : List ℕ → Call
  registers : List ℕ → Call
  retains : List ℕ → ℕ → Call
  drops_topic drops_group : List ℕ → Call
  reloads : Call

unfoldable pub run : Persist → ℕ → Call → Registry → Registry
run p now (creates name queues) r = registry_of (create_topic p now name queues r)
run p now (ensures name) r = registry_of (ensure_topic p now name r)
run p now (registers name) r = registry_of (ensure_group p now name r)
run p now (retains name retention) r = registry_of (update_topic_retention p name retention r)
run p now (drops_topic name) r = registry_of (delete_topic p name r)
run p now (drops_group name) r = registry_of (delete_group p name r)
run p now reloads r = reload r

-- A write-through has a property of registries if the old state, the stored one and the cached one
-- have it.
pub write_through_elim :
    {A : Type 0} (P : Registry → Type 0) (p : Persist) (r stored cached : Registry) (a : A)
    → P r
    → (p ≡ unsure → P stored)
    → P cached
    → P (registry_of (write_through p r stored cached a))
unfolding write_through
write_through_elim P lost r stored cached a old half new = old
write_through_elim P unsure r stored cached a old half new = half refl
write_through_elim P kept r stored cached a old half new = new

-- What a property must do with each write for every call to keep it.
pub record IsKept (P : Registry → Type 0) (p : Persist) (r : Registry) : Type 0 where
  pub old : P r
  pub put_topic : (tc : TopicConfig) → IsTopic (tc.name, tc) → P (registry_of (put_topic p tc r))
  pub put_group : (gc : GroupConfig) → IsGroup (gc.name, gc) → P (registry_of (put_group p gc r))
  pub delete_topic : (name : List ℕ) → P (registry_of (delete_topic p name r))
  pub delete_group : (name : List ℕ) → P (registry_of (delete_group p name r))
  pub reload : P (reload r)

module _ (P : Registry → Type 0) (p : Persist) (r : Registry) (h : IsRegistry r)
    (k : IsKept P p r) where
  create_topic-IsKept :
      (now : ℕ) (name : List ℕ) (queues : ℕ) → P (registry_of (create_topic p now name queues r))
  unfolding create_topic
  create_topic-IsKept now name queues = elim (Bool-cases (validate_name name)) [
    | inr e ↦ rw (registry_of, e) k.old
    | inl e ↦ elim (Bool-cases (leb queues 0)) [
      | inl f ↦ rw (registry_of, e, f) k.old
      | inr f ↦ elim (Option-cases (get name r.topics)) [
        | inr (tc, g) ↦ rw (registry_of, e, f, g) k.old
        | inl g ↦ rw (registry_of, e, f, g) (k.put_topic _ (refl, e, ground arith, omega arith))
      ]
    ]
  ]

  ensure_topic-IsKept : (now : ℕ) (name : List ℕ) → P (registry_of (ensure_topic p now name r))
  unfolding ensure_topic
  ensure_topic-IsKept now name = elim (Bool-cases (validate_name name)) [
    | inr e ↦ rw (registry_of, e) k.old
    | inl e ↦ elim (Option-cases (get name r.topics)) [
      | inr (tc, g) ↦ rw (registry_of, e, g) k.old
      | inl g ↦ rw (registry_of, e, g) (by_flag r.auto_create)
    ]
  ]
    where
      by_flag :
          (b : Bool)
          → P (
              registry_of (
                if not b
                then denied topic_not_found r
                else create_topic p now name r.default_queues r))
      by_flag true = create_topic-IsKept now name r.default_queues
      by_flag false = k.old

  ensure_group-IsKept : (now : ℕ) (name : List ℕ) → P (registry_of (ensure_group p now name r))
  unfolding ensure_group
  ensure_group-IsKept now name = elim (Option-cases (get name r.groups)) [
    | inr (gc, g) ↦ rw (registry_of, g) k.old
    | inl g ↦ elim (Bool-cases (validate_name name)) [
      | inr e ↦ rw (registry_of, g, e) k.old
      | inl e ↦ rw (registry_of, g, e) (k.put_group _ (refl, e, h.attempts))
    ]
  ]

  update_topic_retention-IsKept :
      (name : List ℕ) (retention : ℕ) → P (registry_of (update_topic_retention p name retention r))
  unfolding update_topic_retention put_topic
  update_topic_retention-IsKept name retention = elim (Bool-cases (leb retention 0)) [
    | inl e ↦ rw (registry_of, e) k.old
    | inr e ↦ elim (Option-cases (get name r.topics)) [
      | inl g ↦ rw (registry_of, e, g) k.old
      | inr (tc, g) ↦
          let (own, valid, queues, old) = All-get IsTopic name r.topics tc g h.topics in
          rw (registry_of, e, g, sym own)
            (k.put_topic (record tc { retention_ms = retention })
              (refl, rw own valid, queues, ground arith))
    ]
  ]

  pub run-IsKept : (now : ℕ) (call : Call) → P (run p now call r)
  unfolding run
  run-IsKept now (creates name queues) = create_topic-IsKept now name queues
  run-IsKept now (ensures name) = ensure_topic-IsKept now name
  run-IsKept now (registers name) = ensure_group-IsKept now name
  run-IsKept now (retains name retention) = update_topic_retention-IsKept name retention
  run-IsKept now (drops_topic name) = k.delete_topic name
  run-IsKept now (drops_group name) = k.delete_group name
  run-IsKept now reloads = k.reload

pub load_topics-id : (t : NameMap TopicConfig) → All IsTopic t → load_topics t ≡ t
unfolding load_topics
load_topics-id [] all = refl
load_topics-id ((j, tc) ∷ t) (h, all) =
    ap (λ (x : List ℕ). (x, tc) ∷ load_topics t) h.0 ∙ ap (◌∷◌ (j, tc)) (load_topics-id t all)

pub load_groups-id : (t : NameMap GroupConfig) → All IsGroup t → load_groups t ≡ t
unfolding load_groups
load_groups-id [] all = refl
load_groups-id ((j, gc) ∷ t) (h, all) =
    ap (λ (x : List ℕ). (x, gc) ∷ load_groups t) h.0 ∙ ap (◌∷◌ (j, gc)) (load_groups-id t all)
