-- ===== src/Delay/Moving.antt =====
-- What a pass of the scheduler does: no message is lost, whatever fails, and if nothing fails the
-- due entries are moved in their order.
use sq.Common.{
  ℕ, ◌+◌, ◌≤◌, ◌≡◌, ◌≢◌, ap, sym, ◌∙◌, arith, Bool, true, List, [], ◌∷◌, Option, none, some, ltb,
  ◌==◌, if◌then◌else◌, Bool-cases, inl, inr, ◌⊎◌, some-inj, All, All-take, if-elim, ==_refl,
}
use sq.Message.{Message}
use sq.Deliver.Table.{Ascends, Table, lookup, lookup-delete}
use sq.Delay.Staging.{delay_number}
use sq.Delay.Scheduler.{
  Delays, MoveIo, before, delete_entry, enqueue, max_move_per_pass, move_all, move_one, pass,
  scan_due,
}
use sq.Delay.Reach.{move_one_elim}

abbrev pub Queued : ℕ → List ℕ → Table (List ℕ) → Type 0
Queued k v [] = ⊥
Queued k v (x ∷ t) = (x ≡ (k, v)) ⊎ Queued k v t

-- The message of an entry is still staged, or it is in its queue.
abbrev pub IsKept : ℕ → List ℕ → Delays → Type 0
IsKept k v d = (lookup k d.staging.entries ≡ some v) ⊎ Queued k v d.queued

-- What the scan read is what is there, where it is still there.
abbrev pub Copied : Table (List ℕ) → Table (List ℕ) → Type 0
Copied t dues = All (λ x. (v : List ℕ) → lookup x.0 t ≡ some v → v ≡ x.1) dues

All-map :
    {A : Type 0} (P Q : A → Type 0) (xs : List A) → ((x : A) → P x → Q x) → All P xs → All Q xs
All-map P Q [] f h = tt
All-map P Q (x ∷ xs) f (h, hs) = (f x h, All-map P Q xs f hs)

behind :
    (k : ℕ) (raw : List ℕ) (t : Table (List ℕ)) (x : ℕ × List ℕ)
    → k + 1 ≤ x.0
    → ((v : List ℕ) → lookup x.0 t ≡ some v → v ≡ x.1)
    → (v : List ℕ) → lookup x.0 ((k, raw) ∷ t) ≡ some v
    → v ≡ x.1
unfolding lookup
behind k raw t x h same v e = elim (Bool-cases (k == x.0)) [
  | inl y ↦ absurd (ground arith)
  | inr n ↦ same v (sym (ap (λ (b : Bool). if b then some raw else lookup x.0 t) n) ∙ e)
]

Copied-self :
    (n : ℕ) (t : Table (List ℕ))
    → Ascends n t
    → All (λ x. (n ≤ x.0) × ((v : List ℕ) → lookup x.0 t ≡ some v → v ≡ x.1)) t
unfolding lookup
Copied-self n [] a = tt
Copied-self n ((k, raw) ∷ t) (h, a) = (
  (
    h,
    λ v e.
        sym
          (some-inj (sym (ap (λ (b : Bool). if b then some raw else lookup k t) (==_refl k)) ∙ e)),
  ),
  All-map (λ x. (k + 1 ≤ x.0) × ((v : List ℕ) → lookup x.0 t ≡ some v → v ≡ x.1))
      (λ x. (n ≤ x.0) × ((v : List ℕ) → lookup x.0 ((k, raw) ∷ t) ≡ some v → v ≡ x.1)) t
      (λ x (m, same). (omega arith, behind k raw t x m same)) (Copied-self (k + 1) t a),
)

All-before :
    (P : ℕ × List ℕ → Type 0) (bound : ℕ) (t : Table (List ℕ)) → All P t → All P (before bound t)
unfolding before
All-before P bound [] h = tt
All-before P bound ((k, raw) ∷ t) (h, hs) =
    if-elim (All P) (ltb k bound) ((k, raw) ∷ before bound t) [] (λ e. (h, All-before P bound t hs))
      (λ e. tt)

scan_due-Copied :
    (now : ℕ) (d : Delays) → Ascends 0 d.staging.entries → Copied d.staging.entries (scan_due now d)
unfolding scan_due
scan_due-Copied now d a =
    let P = λ (x : ℕ × List ℕ). (v : List ℕ) → lookup x.0 d.staging.entries ≡ some v → v ≡ x.1 in
    All-take P max_move_per_pass (before (delay_number (now + 1) 0) d.staging.entries) (
      All-before P (delay_number (now + 1) 0) d.staging.entries (
        All-map (λ x. (0 ≤ x.0) × P x) P d.staging.entries (λ x h. h.1)
          (Copied-self 0 d.staging.entries a)))

-- Entries only go.
abbrev Shrinks : Delays → Delays → Type 0
Shrinks d d' =
    (k : ℕ) (v : List ℕ)
    → lookup k d'.staging.entries ≡ some v
    → lookup k d.staging.entries ≡ some v

delete_entry-Shrinks : (key : ℕ) (d : Delays) → Shrinks d (delete_entry key d)
unfolding delete_entry
delete_entry-Shrinks key d k v e = ground (arith, lookup-delete key k d.staging.entries)

abbrev entry : ℕ → List ℕ → ℕ × List ℕ
entry k v = (k, v)

module _ (decode : List ℕ → Option Message) where
  move_one-Shrinks :
      (io : MoveIo) (key : ℕ) (raw : List ℕ) (d : Delays)
      → Shrinks d (move_one decode io key raw d).delays
  unfolding delete_entry enqueue
  move_one-Shrinks io key raw d =
      move_one_elim decode (Shrinks d) io key raw d (λ k v e. e)
        (λ v e bad. delete_entry-Shrinks key d) (λ v e. ((λ k w f. f), delete_entry-Shrinks key d))

  move_one-IsKept :
      (io : MoveIo) (key : ℕ) (raw : List ℕ) (d : Delays) (k : ℕ) (v : List ℕ)
      → ((w : List ℕ) → lookup key d.staging.entries ≡ some w → w ≡ raw)
      → decode v ≢ none
      → IsKept k v d
      → IsKept k v (move_one decode io key raw d).delays
  unfolding delete_entry enqueue
  move_one-IsKept io key raw d k v same good kept =
      move_one_elim decode (IsKept k v) io key raw d kept
        (λ w e bad. elim kept [
          | inl f ↦ elim (Bool-cases (key == k)) [
            | inl y ↦ absurd (good (ap decode (same v (there y f)) ∙ bad))
            | inr n ↦ inl (lookup-delete key k d.staging.entries ∙ rw n f)
          ]
          | inr q ↦ inr q
        ])
        (λ w e. (
          elim kept [ inl f ↦ inl f | inr q ↦ inr (inr q) ],
          elim kept [
            | inl f ↦ elim (Bool-cases (key == k)) [
              | inl y ↦ inr (inl (pair_eq y (same v (there y f))))
              | inr n ↦ inl (lookup-delete key k d.staging.entries ∙ rw n f)
            ]
            | inr q ↦ inr (inr q)
          ],
        ))
    where
      there :
          (key == k) ≡ true
          → lookup k d.staging.entries ≡ some v
          → lookup key d.staging.entries ≡ some v
      there y f = ap (λ (j : ℕ). lookup j d.staging.entries) {x = key} {y = k} (ground arith) ∙ f

      pair_eq : (key == k) ≡ true → v ≡ raw → entry key raw ≡ entry k v
      pair_eq y e =
          ap (λ (j : ℕ). entry j raw) {x = key} {y = k} (ground arith)
          ∙ ap (λ (r : List ℕ). entry k r) (sym e)

  Copied-Shrinks :
      (d d' : Delays) (dues : Table (List ℕ))
      → Shrinks d d'
      → Copied d.staging.entries dues
      → Copied d'.staging.entries dues
  Copied-Shrinks d d' [] s c = tt
  Copied-Shrinks d d' (x ∷ dues) s (h, c) = ((λ v e. h v (s x.0 v e)), Copied-Shrinks d d' dues s c)

  move_all-IsKept :
      (io : ℕ → MoveIo) (dues : Table (List ℕ)) (count : ℕ) (d : Delays) (k : ℕ) (v : List ℕ)
      → Copied d.staging.entries dues
      → decode v ≢ none
      → IsKept k v d
      → IsKept k v (move_all decode io dues count d).0
  unfolding move_all
  move_all-IsKept io [] count d k v c good kept = kept
  move_all-IsKept io ((key, raw) ∷ dues) count d k v (same, c) good kept =
      let r = move_one decode (io key) key raw d in
      let now = move_one-IsKept (io key) key raw d k v same good kept in
      let n = if r.moved then count + 1 else count in
      let later =
        move_all-IsKept io dues n r.delays k v
          (Copied-Shrinks d r.delays dues (move_one-Shrinks (io key) key raw d) c) good now in
      if-elim (λ (x : Delays × ℕ × Bool). IsKept k v x.0) r.failed (r.delays, n, true)
        (move_all decode io dues n r.delays) (λ e. now) (λ e. later)

  -- A pass loses no message that can be decoded, whichever of its reads, appends and deletes fail:
  -- it is still staged afterwards, or it is in its queue.
  pub pass-IsKept :
      (leads scans : Bool) (io : ℕ → MoveIo) (now : ℕ) (d : Delays) (k : ℕ) (v : List ℕ)
      → Ascends 0 d.staging.entries
      → decode v ≢ none
      → lookup k d.staging.entries ≡ some v
      → IsKept k v (pass decode leads scans io now d).0
  unfolding pass
  pass-IsKept leads scans io now d k v a good e =
      let Q = λ (x : Delays × ℕ × Bool). IsKept k v x.0 in
      if-elim Q leads _ _
        (λ l.
          if-elim Q scans _ _
            (λ s.
              move_all-IsKept io (scan_due now d) 0 d k v (scan_due-Copied now d a) good (inl e))
            (λ s. inl e))
        (λ l. inl e)
