-- ===== src/Delay/Recall.antt =====
-- A recall that is answered as done keeps its word: the message never comes to its queue.
use sq.Common.{
  ℕ, ◌+◌, ◌*◌, ◌%◌, ◌^◌, ◌<◌, ◌≡◌, ◌≢◌, refl, ap, sym, ◌∙◌, arith, Bool, false, List, [], Option,
  none, some, ◌==◌, if◌then◌else◌, Bool-cases, Option-cases, inl, inr, subst, none≢some,
}
use sq.Message.{Message}
use sq.Deliver.Table.{Table, delete, lookup, lookup-insert, lookup-delete}
use sq.Deliver.State.{Commit}
use sq.Delay.Staging.{Staging, delay_number, invalidate_counters, next_delay_seq, stage}
use sq.Delay.Scheduler.{
  Delays, Recalled, delete_entry, enqueue, recall, recall_fails, recalled, RecallError, store_error,
}
use sq.Delay.Reach.{
  Happens, Reaches, System, append_delay_elim, here, invalidates, move_one_elim, moves, next,
  recall_elim, recalls, stages, ticks, with_staging,
}

abbrev stored_seq : Staging → ℕ
stored_seq s = elim s.delay_alloc [ none ↦ 0 | some n ↦ n ]

-- Every number of the table is below n.
abbrev Below : ℕ → Table (List ℕ) → Type 0
Below n t = (key : ℕ) (v : List ℕ) → lookup key t ≡ some v → key % 2 ^ 64 < n

-- The counter in memory is the one on disk, no number was given out that the counter did not pass,
-- and what is in a queue was due.
record IsSafe (d : Delays) (now : ℕ) : Type 0 where
  pub counter : next_delay_seq d.staging ≡ stored_seq d.staging
  pub entries : Below (next_delay_seq d.staging) d.staging.entries
  pub queued : Below (next_delay_seq d.staging) d.queued
  pub due : (key : ℕ) (v : List ℕ) → lookup key d.queued ≡ some v → key < delay_number (now + 1) 0

-- The entry is gone, the message is in no queue, and its number will not be given out again.
abbrev pub Settled : ℕ → Delays → Type 0
Settled key d =
    (lookup key d.staging.entries ≡ none)
    × (lookup key d.queued ≡ none)
    × (key % 2 ^ 64 < next_delay_seq d.staging)

deleted_entry :
    (key k : ℕ) (v : List ℕ) (t : Table (List ℕ))
    → lookup k (delete key t) ≡ some v
    → lookup k t ≡ some v
deleted_entry key k v t e = ground (arith, lookup-delete key k t)

delete_entry-IsSafe :
    (key : ℕ) (d : Delays) (now : ℕ) → IsSafe d now → IsSafe (delete_entry key d) now
unfolding delete_entry next_delay_seq
delete_entry-IsSafe key d now s = record {
  counter = s.counter;
  entries = λ k v e. s.entries k v (deleted_entry key k v d.staging.entries e);
  queued = s.queued;
  due = s.due;
}

-- The first entry of a table, or one behind it.
new_or_old :
    (key k : ℕ) (raw w : List ℕ) (t : Table (List ℕ)) (P : ℕ → Type 0)
    → P key
    → (lookup k t ≡ some w → P k)
    → (if key == k then some raw else lookup k t) ≡ some w
    → P k
new_or_old key k raw w t P new old e = elim (Bool-cases (key == k)) [
  | inl y ↦ subst P (ground arith) new
  | inr n ↦ old (sym (ap (λ (b : Bool). if b then some raw else lookup k t) n) ∙ e)
]

enqueue-IsSafe :
    (key : ℕ) (raw v : List ℕ) (d : Delays) (now : ℕ)
    → lookup key d.staging.entries ≡ some v
    → key < delay_number (now + 1) 0
    → IsSafe d now
    → IsSafe (enqueue key raw d) now
unfolding enqueue lookup
enqueue-IsSafe key raw v d now e h s = record {
  counter = s.counter;
  entries = s.entries;
  queued = λ k w f.
      new_or_old key k raw w d.queued (λ j. j % 2 ^ 64 < next_delay_seq d.staging)
        (s.entries key v e) (s.queued k w) f;
  due =
      λ k w f. new_or_old key k raw w d.queued (λ j. j < delay_number (now + 1) 0) h (s.due k w) f;
}

next_delay_seq-stage :
    (due_ms : ℕ) (raw : List ℕ) (s : Staging)
    → next_delay_seq (stage due_ms raw s) ≡ next_delay_seq s + 1
unfolding stage next_delay_seq
next_delay_seq-stage due_ms raw s = refl

stage-IsSafe :
    (due_ms : ℕ) (raw : List ℕ) (d : Delays) (now : ℕ)
    → next_delay_seq d.staging + 1 < 2 ^ 64
    → IsSafe d now
    → IsSafe (record d { staging = stage due_ms raw d.staging }) now
unfolding stage delay_number
stage-IsSafe due_ms raw d now h s = record {
  counter = next_delay_seq-stage due_ms raw d.staging;
  entries = λ k v e.
      let seq = next_delay_seq d.staging in
      let more = next_delay_seq-stage due_ms raw d.staging in
      new_or_old (due_ms * 2 ^ 64 + seq) k raw v d.staging.entries
        (λ j. j % 2 ^ 64 < next_delay_seq (stage due_ms raw d.staging)) (omega arith)
        (λ old. let low = s.entries k v old in omega arith)
        (sym (lookup-insert (due_ms * 2 ^ 64 + seq) k raw d.staging.entries) ∙ e);
  queued = λ k v e.
      let low = s.queued k v e in
      let more = next_delay_seq-stage due_ms raw d.staging in omega arith;
  due = s.due;
}

next_delay_seq-invalidate : (s : Staging) → next_delay_seq (invalidate_counters s) ≡ stored_seq s
unfolding invalidate_counters next_delay_seq
next_delay_seq-invalidate s = refl

invalidate-IsSafe :
    (d : Delays) (now : ℕ)
    → IsSafe d now
    → IsSafe (record d { staging = invalidate_counters d.staging }) now
unfolding invalidate_counters
invalidate-IsSafe d now s =
    let same = next_delay_seq-invalidate d.staging ∙ sym s.counter in
    record {
      counter = next_delay_seq-invalidate d.staging;
      entries = λ k v e. let low = s.entries k v e in omega arith;
      queued = λ k v e. let low = s.queued k v e in omega arith;
      due = s.due;
    }

not_recalled : (r : RecallError) (id : List ℕ) → recall_fails r ≢ recalled id
not_recalled r id e = cc

-- The entry was not due, so it was in no queue.
recalled-Settled :
    (due_ms seq : ℕ) (d : Delays) (now : ℕ) (v : List ℕ)
    → lookup (delay_number due_ms seq) d.staging.entries ≡ some v
    → IsSafe d now
    → now < due_ms
    → Settled (delay_number due_ms seq) (delete_entry (delay_number due_ms seq) d)
unfolding delete_entry next_delay_seq
recalled-Settled due_ms seq d now v e k later =
    let key = delay_number due_ms seq in
    let low = k.entries key v e in
    (
      ground (arith, lookup-delete key key d.staging.entries),
      elim (Option-cases (lookup key d.queued)) [
        | inl n ↦ n
        | inr (w, ew) ↦ absurd (not_due (k.due key w ew))
      ],
      low,
    )
  where
    not_due : delay_number due_ms seq < delay_number (now + 1) 0 → ⊥
    not_due h = unfold delay_number in omega arith

-- Nothing is staged, and no counter is written.
abbrev pub start : ℕ → System
start now = record {
  delays = record {
    staging = record { entries = []; delay_alloc = none; delay_next = 0; delay_loaded = false };
    queued = [];
  };
  now = now;
}

start-IsSafe : (now : ℕ) → IsSafe (start now).delays now
unfolding lookup next_delay_seq
start-IsSafe now = record {
  counter = refl;
  entries = λ k v e. absurd (none≢some e);
  queued = λ k v e. absurd (none≢some e);
  due = λ k v e. absurd (none≢some e);
}

module _ (decode : List ℕ → Option Message) where
  Happens-IsSafe :
      (s t : System) → Happens decode s t → IsSafe s.delays s.now → IsSafe t.delays t.now
  Happens-IsSafe s t (ticks t' later) k = record {
    counter = k.counter;
    entries = k.entries;
    queued = k.queued;
    due = λ key v e. let low = k.due key v e in unfold delay_number in omega arith;
  }
  Happens-IsSafe s t invalidates k = invalidate-IsSafe s.delays s.now k
  Happens-IsSafe s t (stages ensured appends commit t' raw m low) k =
      append_delay_elim decode (λ x. IsSafe (with_staging s x).delays s.now) ensured appends commit
        t' raw m s.delays.staging k
        (λ bytes. stage-IsSafe m.deliver_at_ms bytes s.delays s.now low k)
  Happens-IsSafe s t (moves io key raw due same) k =
      move_one_elim decode (λ d. IsSafe d s.now) io key raw s.delays k
        (λ v e bad. delete_entry-IsSafe key s.delays s.now k)
        (λ v e.
          let queued = enqueue-IsSafe key raw v s.delays s.now e due k in
          (queued, delete_entry-IsSafe key (enqueue key raw s.delays) s.now queued))
  Happens-IsSafe s t (recalls leads reads deletion topic due_ms seq) k =
      recall_elim decode (λ x. IsSafe x.0 s.now) leads reads deletion s.now topic due_ms seq
        s.delays (λ e. k)
        (λ v e later.
          let gone = delete_entry-IsSafe (delay_number due_ms seq) s.delays s.now k in
          (gone, λ id. gone))

  -- A move of another entry, or of this one, which is gone.
  move-Settled :
      (key : ℕ) (d : Delays) (k : ℕ) (raw v : List ℕ)
      → lookup k d.staging.entries ≡ some v
      → Settled key d
      → Settled key (enqueue k raw d)
  unfolding enqueue lookup
  move-Settled key d k raw v e (gone, away, low) = (gone, other, low)
    where
      other : (if k == key then some raw else lookup key d.queued) ≡ none
      other = elim (Bool-cases (k == key)) [
        | inl y ↦ absurd (
            none≢some (
              sym gone
              ∙ ap (λ (j : ℕ). lookup j d.staging.entries) {x = key} {y = k} (ground arith)
              ∙ e))
        | inr n ↦ rw n away
      ]

  delete_entry-Settled : (key k : ℕ) (d : Delays) → Settled key d → Settled key (delete_entry k d)
  unfolding delete_entry next_delay_seq
  delete_entry-Settled key k d (gone, away, low) =
      (ground (arith, lookup-delete k key d.staging.entries), away, low)

  stage-Settled :
      (key due_ms : ℕ) (raw : List ℕ) (d : Delays)
      → next_delay_seq d.staging + 1 < 2 ^ 64
      → Settled key d
      → Settled key (record d { staging = stage due_ms raw d.staging })
  unfolding stage delay_number
  stage-Settled key due_ms raw d h (gone, away, low) =
      let more = next_delay_seq-stage due_ms raw d.staging in
      let other : (if due_ms * 2 ^ 64 + next_delay_seq d.staging == key
            then some raw
            else lookup key d.staging.entries)
          ≡ none =
        elim (Bool-cases (due_ms * 2 ^ 64 + next_delay_seq d.staging == key)) [
          | inl y ↦ absurd (ground arith)
          | inr n ↦ rw n gone
        ] in
      (
        lookup-insert (due_ms * 2 ^ 64 + next_delay_seq d.staging) key raw d.staging.entries
            ∙ other,
        away,
        omega arith,
      )

  Happens-Settled :
      (key : ℕ) (s t : System)
      → Happens decode s t
      → IsSafe s.delays s.now
      → Settled key s.delays
      → Settled key t.delays
  Happens-Settled key s t (ticks t' later) k z = z
  Happens-Settled key s t invalidates k (gone, away, low) = (
    (unfold invalidate_counters in gone),
    away,
    subst (λ (n : ℕ). key % 2 ^ 64 < n)
        (k.counter ∙ sym (next_delay_seq-invalidate s.delays.staging)) low,
  )
  Happens-Settled key s t (stages ensured appends commit t' raw m low) k z =
      append_delay_elim decode (λ x. Settled key (with_staging s x).delays) ensured appends commit
        t' raw m s.delays.staging z
        (λ bytes. stage-Settled key m.deliver_at_ms bytes s.delays low z)
  Happens-Settled key s t (moves io j raw due same) k z =
      move_one_elim decode (Settled key) io j raw s.delays z
        (λ v e bad. delete_entry-Settled key j s.delays z)
        (λ v e.
          let queued = move-Settled key s.delays j raw v e z in
          (queued, delete_entry-Settled key j (enqueue j raw s.delays) queued))
  Happens-Settled key s t (recalls leads reads deletion topic due_ms seq) k z =
      recall_elim decode (λ x. Settled key x.0) leads reads deletion s.now topic due_ms seq s.delays
        (λ e. z)
        (λ v e later.
          let gone = delete_entry-Settled key (delay_number due_ms seq) s.delays z in
          (gone, λ id. gone))

  Reaches-IsSafe :
      (s t : System) → Reaches decode s t → IsSafe s.delays s.now → IsSafe t.delays t.now
  Reaches-IsSafe s t here k = k
  Reaches-IsSafe s t (next {t = u} h r) k = Reaches-IsSafe u t r (Happens-IsSafe s u h k)

  Reaches-Settled :
      (key : ℕ) (s t : System)
      → Reaches decode s t
      → IsSafe s.delays s.now
      → Settled key s.delays
      → Settled key t.delays
  Reaches-Settled key s t here k z = z
  Reaches-Settled key s t (next {t = u} h r) k z =
      Reaches-Settled key u t r (Happens-IsSafe s u h k) (Happens-Settled key s u h k z)

  -- What Recall has done when it answers with an id.
  recall-Settled :
      (leads reads : Bool) (deletion : Commit) (now : ℕ) (topic : List ℕ) (due_ms seq : ℕ)
      (d d' : Delays) (id : List ℕ)
      → IsSafe d now
      → recall decode leads reads deletion now topic due_ms seq d ≡ (d', recalled id)
      → IsSafe d' now × Settled (delay_number due_ms seq) d'
  recall-Settled leads reads deletion now topic due_ms seq d d' id k e =
      recall_elim decode (λ x. x ≡ (d', recalled id) → IsSafe d' now × Settled key d') leads reads
        deletion now topic due_ms seq d
        (λ r same. absurd (not_recalled r id (ap (λ (x : Delays × Recalled). x.1) same)))
        (λ v ev later. (
          (λ same. absurd (not_recalled store_error id (ap (λ (x : Delays × Recalled). x.1) same))),
          (λ i same.
              subst (λ (x : Delays). IsSafe x now × Settled key x)
                (ap (λ (x : Delays × Recalled). x.0) same)
                (delete_entry-IsSafe key d now k, recalled-Settled due_ms seq d now v ev k later)),
        ))
        e
    where
      key : ℕ
      key = delay_number due_ms seq

  -- Once a recall was answered with the message's id, the message is in no queue, and it never comes
  -- to one, whatever happens next: other recalls, moves of what an old scan read, new entries, a
  -- change of the leader, the clock.
  pub recall-Settles :
      (s s2 : System) (now : ℕ) (leads reads : Bool) (deletion : Commit) (topic : List ℕ)
      (due_ms seq : ℕ) (d : Delays) (id : List ℕ)
      → Reaches decode (start now) s
      → recall decode leads reads deletion s.now topic due_ms seq s.delays ≡ (d, recalled id)
      → Reaches decode (record s { delays = d }) s2
      → (lookup (delay_number due_ms seq) s2.delays.queued ≡ none)
        × (lookup (delay_number due_ms seq) s2.delays.staging.entries ≡ none)
  recall-Settles s s2 now leads reads deletion topic due_ms seq d id before e after =
      let safe = Reaches-IsSafe (start now) s before (start-IsSafe now) in
      let (safe2, settled) =
        recall-Settled leads reads deletion s.now topic due_ms seq s.delays d id safe e in
      let (gone, away, low) =
        Reaches-Settled (delay_number due_ms seq) (record s { delays = d }) s2 after safe2
          settled in
      (away, gone)
