-- ===== src/Meta/Consistency.antt =====
-- The registry stays well formed, and its caches equal to the store.
use sq.Common.{ℕ, ◌≡◌, ◌≢◌, ap, true, List, [], ◌∷◌, Option-cases, inl, inr}
use sq.Meta.NameMap.{get, set, remove, All-set, All-remove}
use sq.Meta.Registry.{
  Registry, Persist, unsure, registry_of, put_topic, put_group, delete_topic, delete_group, reload,
}
use sq.Meta.Upkeep.{
  IsTopic, IsGroup, IsRegistry, Call, run, write_through_elim, IsKept, run-IsKept, load_topics-id,
  load_groups-id,
}

-- The caches are what the store holds.
abbrev pub IsSynced : Registry → Type 0
IsSynced r = (r.topics ≡ r.stored_topics) × (r.groups ≡ r.stored_groups)

reload-IsSynced : (r : Registry) → IsRegistry r → IsSynced (reload r)
unfolding reload
reload-IsSynced r h =
    (load_topics-id r.stored_topics h.stored_topics, load_groups-id r.stored_groups h.stored_groups)

keeps_IsRegistry : (p : Persist) (r : Registry) → IsRegistry r → IsKept IsRegistry p r
unfolding put_topic put_group delete_topic delete_group reload
keeps_IsRegistry p r h = record {
  old = h;
  put_topic = λ tc ok.
      let stored = All-set IsTopic tc.name tc r.stored_topics ok h.stored_topics in
      write_through_elim IsRegistry p r _ _ tc h
        (λ e. record {
          attempts = h.attempts;
          topics = h.topics;
          groups = h.groups;
          stored_topics = stored;
          stored_groups = h.stored_groups;
        })
        (record {
          attempts = h.attempts;
          topics = All-set IsTopic tc.name tc r.topics ok h.topics;
          groups = h.groups;
          stored_topics = stored;
          stored_groups = h.stored_groups;
        });
  put_group = λ gc ok.
      let stored = All-set IsGroup gc.name gc r.stored_groups ok h.stored_groups in
      write_through_elim IsRegistry p r _ _ gc h
        (λ e. record {
          attempts = h.attempts;
          topics = h.topics;
          groups = h.groups;
          stored_topics = h.stored_topics;
          stored_groups = stored;
        })
        (record {
          attempts = h.attempts;
          topics = h.topics;
          groups = All-set IsGroup gc.name gc r.groups ok h.groups;
          stored_topics = h.stored_topics;
          stored_groups = stored;
        });
  delete_topic = λ name. elim (Option-cases (get name r.topics)) [
    | inl g ↦ rw (registry_of, g) h
    | inr (tc, g) ↦
        let stored = All-remove IsTopic name r.stored_topics h.stored_topics in
        rw (registry_of, g)
          (write_through_elim IsRegistry p r _ _ true h
            (λ e. record {
              attempts = h.attempts;
              topics = h.topics;
              groups = h.groups;
              stored_topics = stored;
              stored_groups = h.stored_groups;
            })
            (record {
              attempts = h.attempts;
              topics = All-remove IsTopic name r.topics h.topics;
              groups = h.groups;
              stored_topics = stored;
              stored_groups = h.stored_groups;
            }))
  ];
  delete_group = λ name. elim (Option-cases (get name r.groups)) [
    | inl g ↦ rw (registry_of, g) h
    | inr (gc, g) ↦
        let stored = All-remove IsGroup name r.stored_groups h.stored_groups in
        rw (registry_of, g)
          (write_through_elim IsRegistry p r _ _ true h
            (λ e. record {
              attempts = h.attempts;
              topics = h.topics;
              groups = h.groups;
              stored_topics = h.stored_topics;
              stored_groups = stored;
            })
            (record {
              attempts = h.attempts;
              topics = h.topics;
              groups = All-remove IsGroup name r.groups h.groups;
              stored_topics = h.stored_topics;
              stored_groups = stored;
            }))
  ];
  reload = record {
    attempts = h.attempts;
    topics = rw (load_topics-id r.stored_topics h.stored_topics) h.stored_topics;
    groups = rw (load_groups-id r.stored_groups h.stored_groups) h.stored_groups;
    stored_topics = h.stored_topics;
    stored_groups = h.stored_groups;
  };
}

keeps_IsSynced :
    (p : Persist) (r : Registry) → IsRegistry r → IsSynced r → p ≢ unsure → IsKept IsSynced p r
unfolding put_topic put_group delete_topic delete_group
keeps_IsSynced p r h s sure = record {
  old = s;
  put_topic = λ tc ok.
      write_through_elim IsSynced p r _ _ tc s (λ e. absurd (sure e))
        (ap (set tc.name tc) s.0, s.1);
  put_group = λ gc ok.
      write_through_elim IsSynced p r _ _ gc s (λ e. absurd (sure e))
        (s.0, ap (set gc.name gc) s.1);
  delete_topic = λ name. elim (Option-cases (get name r.topics)) [
    | inl g ↦ rw (registry_of, g) s
    | inr (tc, g) ↦
        rw (registry_of, g)
          (write_through_elim IsSynced p r _ _ true s (λ e. absurd (sure e))
            (ap (remove name) s.0, s.1))
  ];
  delete_group = λ name. elim (Option-cases (get name r.groups)) [
    | inl g ↦ rw (registry_of, g) s
    | inr (gc, g) ↦
        rw (registry_of, g)
          (write_through_elim IsSynced p r _ _ true s (λ e. absurd (sure e))
            (s.0, ap (remove name) s.1))
  ];
  reload = reload-IsSynced r h;
}

-- Any sequence of calls, each with its own clock and outcome of the commit.
unfoldable pub run_all : List (Persist × ℕ × Call) → Registry → Registry
run_all [] r = r
run_all ((p, now, call) ∷ calls) r = run_all calls (run p now call r)

-- After any sequence of calls, whatever becomes of their commits, every entry of the registry, in
-- the caches and in the store, stands under its own name, which is valid, with at least one queue
-- and a retention above zero, or at least one attempt, if this held before.
pub run_all-IsRegistry :
    (calls : List (Persist × ℕ × Call)) (r : Registry) → IsRegistry r → IsRegistry (run_all calls r)
unfolding run_all
run_all-IsRegistry [] r h = h
run_all-IsRegistry ((p, now, call) ∷ calls) r h =
    run_all-IsRegistry calls (run p now call r)
      (run-IsKept IsRegistry p r h (keeps_IsRegistry p r h) now call)

-- A call whose commit succeeds or is refused leaves the caches equal to the store, where they were
-- equal; and a reload makes them equal after a commit that was applied with an error.
pub run-IsSynced :
    (p : Persist) (now : ℕ) (call : Call) (r : Registry)
    → IsRegistry r
    → IsSynced r
    → (p ≢ unsure → IsSynced (run p now call r)) × IsSynced (reload (run p now call r))
run-IsSynced p now call r h s = (
  λ sure. run-IsKept IsSynced p r h (keeps_IsSynced p r h s sure) now call,
  reload-IsSynced (run p now call r)
      (run-IsKept IsRegistry p r h (keeps_IsRegistry p r h) now call),
)
