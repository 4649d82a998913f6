-- ===== src/Meta/Registry.antt =====
-- The registry of internal/core/meta/meta.go: the configurations of topics and groups, cached in
-- memory and written through to the store.
use sq.Common.{
  ◌%◌, ◌^◌, ◌-◌, ltb, ℤ, pos, negsuc, ℕ, ◌*◌, Bool, true, not, List, none, some, if◌then◌else◌, leb,
  map,
}
use sq.Meta.Names.{validate_name}
use sq.Meta.NameMap.{NameMap, get, set, remove}

-- A retention of 0 is one that was never set.
pub record TopicConfig : Type 0 where
  pub name : List ℕ
  pub queues : ℕ
  pub created_at_ms : ℕ
  pub retention_ms : ℕ

pub record GroupConfig : Type 0 where
  pub name : List ℕ
  pub created_at_ms : ℕ
  pub max_attempts : ℕ

abbrev pub default_max_attempts : ℕ
default_max_attempts = 16

abbrev pub default_retention_ms : ℕ
default_retention_ms = 3 * 24 * 60 * 60 * 1000

-- A number as an int64 keeps it, a time.Duration for one.
abbrev pub int64_of : ℕ → ℤ
int64_of n = let v = n % 2 ^ 64 in if ltb v (2 ^ 63) then pos v else negsuc (2 ^ 64 - 1 - v)

-- Both read a zero as the default; the retention is in nanoseconds.
unfoldable pub effective_retention : TopicConfig → ℤ
effective_retention t =
    if leb t.retention_ms 0
    then pos (default_retention_ms * 1_000_000)
    else int64_of (t.retention_ms * 1_000_000)

unfoldable pub effective_max_attempts : GroupConfig → ℕ
effective_max_attempts g = if leb g.max_attempts 0 then default_max_attempts else g.max_attempts

-- The two caches, and the entries that the store holds.
pub record Registry : Type 0 where
  pub auto_create : Bool
  pub default_queues : ℕ
  pub group_attempts : ℕ
  pub topics : NameMap TopicConfig
  pub groups : NameMap GroupConfig
  pub stored_topics : NameMap TopicConfig
  pub stored_groups : NameMap GroupConfig

pub data MetaError : Type 0 where
  bad_name no_queues bad_retention topic_not_found group_not_found not_persisted : MetaError

-- What becomes of a commit: refused; applied, though the caller gets an error; applied.
pub data Persist : Type 0 where
  lost unsure kept : Persist

pub data Outcome (A : Type 0) : Type 0 where
  denied : MetaError → Registry → Outcome A
  granted : A → Registry → Outcome A

abbrev pub registry_of : {A : Type 0} → Outcome A → Registry
registry_of (denied e r) = r
registry_of (granted a r) = r

-- A write-through: the store changes first; the cache changes once the commit has succeeded.
unfoldable pub write_through :
    {A : Type 0} → Persist → Registry → Registry → Registry → A → Outcome A
write_through lost r stored cached a = denied not_persisted r
write_through unsure r stored cached a = denied not_persisted stored
write_through kept r stored cached a = granted a cached

unfoldable pub put_topic : Persist → TopicConfig → Registry → Outcome TopicConfig
put_topic p tc r =
    let stored = record r { stored_topics = set tc.name tc r.stored_topics } in
    write_through p r stored (record stored { topics = set tc.name tc r.topics }) tc

unfoldable pub create_topic : Persist → ℕ → List ℕ → ℕ → Registry → Outcome TopicConfig
create_topic p now_ms name queues r =
    if not (validate_name name)
    then denied bad_name r
    else if leb queues 0
    then denied no_queues r
    else elim (get name r.topics) [
      | some tc ↦ granted tc r
      | none ↦
          put_topic p
            (record {
              name = name;
              queues = queues;
              created_at_ms = now_ms;
              retention_ms = default_retention_ms;
            })
            r
    ]

unfoldable pub ensure_topic : Persist → ℕ → List ℕ → Registry → Outcome TopicConfig
ensure_topic p now_ms name r =
    if not (validate_name name) then denied bad_name r else elim (get name r.topics) [
      | some tc ↦ granted tc r
      | none ↦
          if not r.auto_create
          then denied topic_not_found r
          else create_topic p now_ms name r.default_queues r
    ]

unfoldable pub put_group : Persist → GroupConfig → Registry → Outcome GroupConfig
put_group p gc r =
    let stored = record r { stored_groups = set gc.name gc r.stored_groups } in
    write_through p r stored (record stored { groups = set gc.name gc r.groups }) gc

unfoldable pub ensure_group : Persist → ℕ → List ℕ → Registry → Outcome GroupConfig
ensure_group p now_ms name r = elim (get name r.groups) [
  | some gc ↦ granted gc r
  | none ↦
      if not (validate_name name)
      then denied bad_name r
      else put_group p
          (record { name = name; created_at_ms = now_ms; max_attempts = r.group_attempts }) r
]

-- The configuration is written under the name that was asked for, the one it holds.
unfoldable pub update_topic_retention : Persist → List ℕ → ℕ → Registry → Outcome TopicConfig
update_topic_retention p name retention_ms r =
    if leb retention_ms 0 then denied bad_retention r else elim (get name r.topics) [
      | none ↦ denied topic_not_found r
      | some tc ↦
          let updated = record tc { retention_ms = retention_ms } in
          let stored = record r { stored_topics = set name updated r.stored_topics } in
          write_through p r stored (record stored { topics = set name updated r.topics }) updated
    ]

unfoldable pub delete_topic : Persist → List ℕ → Registry → Outcome Bool
delete_topic p name r = elim (get name r.topics) [
  | none ↦ denied topic_not_found r
  | some tc ↦
      let stored = record r { stored_topics = remove name r.stored_topics } in
      write_through p r stored (record stored { topics = remove name r.topics }) true
]

unfoldable pub delete_group : Persist → List ℕ → Registry → Outcome Bool
delete_group p name r = elim (get name r.groups) [
  | none ↦ denied group_not_found r
  | some gc ↦
      let stored = record r { stored_groups = remove name r.stored_groups } in
      write_through p r stored (record stored { groups = remove name r.groups }) true
]

-- loadLocked: each entry goes under the name it holds.
unfoldable pub load_topics : NameMap TopicConfig → NameMap TopicConfig
load_topics t = map (λ e. (e.1.name, e.1)) t

unfoldable pub load_groups : NameMap GroupConfig → NameMap GroupConfig
load_groups t = map (λ e. (e.1.name, e.1)) t

unfoldable pub reload : Registry → Registry
reload r = record r { topics = load_topics r.stored_topics; groups = load_groups r.stored_groups }
