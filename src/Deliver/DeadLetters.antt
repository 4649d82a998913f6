-- ===== src/Deliver/DeadLetters.antt =====
-- The outcomes of moveToDLQ of internal/core/deliver/deliver.go.
use sq.Common.{
  ℕ, ◌≡◌, refl, sym, subst, Bool, true, false, List, [], ◌∷◌, ◌++◌, ◌⊎◌, inl, inr, Bool-cases,
}
use sq.Message.{Message}
use sq.Meta.Names.{validate_name, dlq_topic_name}
use sq.Deliver.Table.{delete}
use sq.Deliver.State.{
  Queue, Context, DeadLetterFate, append_fails, delete_fails, delete_unsynced, moved, dead_letter,
  move_to_dlq,
}

DeadLetterFate-cases :
    (x : DeadLetterFate)
    → (x ≡ append_fails) ⊎ ((x ≡ delete_fails) ⊎ ((x ≡ delete_unsynced) ⊎ (x ≡ moved)))
DeadLetterFate-cases append_fails = inl refl
DeadLetterFate-cases delete_fails = inr (inl refl)
DeadLetterFate-cases delete_unsynced = inr (inr (inl refl))
DeadLetterFate-cases moved = inr (inr (inr refl))

module _ (c : Context) (q : Queue) (offset : ℕ) (m : Message) (attempts : ℕ) (reason : List ℕ) where
  abbrev pub outcome : Queue × Bool
  outcome = move_to_dlq c q offset m attempts reason

  -- The dead letter is written; the record of the source is deleted after that.
  abbrev pub written : Queue
  written = record q {
    dead_letters = q.dead_letters ++ (dead_letter c offset m attempts reason ∷ []);
  }

  abbrev pub emptied : Queue
  emptied = record written { inflight = delete offset q.inflight }

  -- moveToDLQ changes nothing, or writes the dead letter, or also deletes the record, which it does
  -- whenever it succeeds.
  pub move_outcomes :
      (outcome ≡ (q, false))
      ⊎ ((outcome ≡ (written, false))
          ⊎ ((outcome ≡ (emptied, false)) ⊎ (outcome ≡ (emptied, true))))
  unfolding move_to_dlq
  move_outcomes = elim (Bool-cases (validate_name (dlq_topic_name c.group))) [
    | inr g ↦ inl (rw g refl)
    | inl g ↦
        rw (move_to_dlq, g)
          (elim (DeadLetterFate-cases (c.dead_letter_fate offset)) [
            | inl e ↦ inl (rw e refl)
            | inr (inl e) ↦ inr (inl (rw e refl))
            | inr (inr (inl e)) ↦ inr (inr (inl (rw e refl)))
            | inr (inr (inr e)) ↦ inr (inr (inr (rw e refl)))
          ])
  ]

  -- A property of the four outcomes.
  pub move_elim :
      (P : Queue × Bool → Type 0)
      → P (q, false)
      → P (written, false)
      → P (emptied, false)
      → P (emptied, true)
      → P outcome
  move_elim P a b d e = elim move_outcomes [
    | inl h ↦ subst P (sym h) a
    | inr (inl h) ↦ subst P (sym h) b
    | inr (inr (inl h)) ↦ subst P (sym h) d
    | inr (inr (inr h)) ↦ subst P (sym h) e
  ]
