-- ===== src/Retention/Queues.antt =====
-- What purgeQueue removes of a queue.
use sq.Common.{
  ℕ, zero, suc, ◌+◌, ◌≤◌, ◌<◌, ◌≡◌, refl, ap, subst, arith, Bool, true, false, not, List, [], ◌∷◌,
  Option, some, leb, ltb, ◌==◌, if-elim, take, drop, All, Option-cases, inl, inr, ◌⊎◌, Bool-cases,
  leb→le, some-inj, none≢some,
}
use sq.Message.{Message}
use sq.Deliver.Table.{Table}
use sq.Deliver.State.{Commit, rejected, unsynced, committed}
use sq.Deliver.Fetching.{IsStored}
use sq.Retention.Purge.{
  Purged, commit_range, delete_below, expired_run, max_purge_per_queue, purge_queue,
}

-- Nothing of what is stored from n on lies below the boundary n.
delete_below-none :
    (decode : List ℕ → Option Message) (n b : ℕ) (t : Table (List ℕ))
    → b ≤ n
    → IsStored decode n t
    → delete_below b t ≡ t
unfolding delete_below
delete_below-none decode n b [] h s = refl
delete_below-none decode n b ((o, raw) ∷ t) h (low, wide, own, s) =
    let keeps : ltb o b ≡ false = ground arith in
    rw (keeps, delete_below-none decode (o + 1) b t (omega arith) s)

module _ (decode : List ℕ → Option Message) (cutoff : ℕ) where
  -- A message that was stored before the cutoff, and one that was not.
  abbrev pub IsExpired : ℕ × List ℕ → Type 0
  IsExpired (o, raw) = (m : Message) × (decode raw ≡ some m) × (m.store_at_ms < cutoff)

  abbrev pub Ends : Table (List ℕ) → Type 0
  Ends [] = Unit {0}
  Ends ((o, raw) ∷ t) = (m : Message) × (decode raw ≡ some m) × (cutoff ≤ m.store_at_ms)

  -- A run of k messages, with the boundary behind it.
  record IsRun (limit : ℕ) (t : Table (List ℕ)) (b found b' found' k : ℕ) : Type 0 where
    pub counted : found' ≡ found + k
    pub ahead : b ≤ b'
    pub cut : delete_below b' t ≡ drop k t
    pub expired : All IsExpired (take k t)
    pub within : k ≤ limit
    pub stops : (k ≡ limit) ⊎ Ends (drop k t)

  none-IsRun :
      (limit n b found : ℕ) (t : Table (List ℕ))
      → b ≤ n
      → IsStored decode n t
      → (0 ≡ limit) ⊎ Ends t
      → IsRun limit t b found b found 0
  none-IsRun limit n b found t h s e = record {
    counted = omega arith;
    ahead = omega arith;
    cut = delete_below-none decode n b t h s;
    expired = tt;
    within = omega arith;
    stops = e;
  }

  expired_run-IsRun :
      (limit n b found b' found' : ℕ) (t : Table (List ℕ))
      → b ≤ n
      → IsStored decode n t
      → expired_run decode cutoff limit t b found ≡ some (b', found')
      → (k : ℕ) × IsRun limit t b found b' found' k
  unfolding expired_run
  expired_run-IsRun zero n b found b' found' t h s e =
      (0, subst Run (some-inj e) (none-IsRun 0 n b found t h s (inl refl)))
    where
      Run : ℕ × ℕ → Type 0
      Run (c, f) = IsRun 0 t b found c f 0
  expired_run-IsRun (suc limit) n b found b' found' [] h s e =
      (0, subst Run (some-inj e) (none-IsRun (suc limit) n b found [] h s (inr tt)))
    where
      Run : ℕ × ℕ → Type 0
      Run (c, f) = IsRun (suc limit) [] b found c f 0
  expired_run-IsRun (suc limit) n b found b' found' ((o, raw) ∷ t) h (low, wide, own, s) e =
      elim (Option-cases (decode raw)) [
        | inl z ↦ absurd (none≢some (rw (z, expired_run) at e))
        | inr (m, em) ↦ elim (Bool-cases (leb cutoff m.store_at_ms)) [
          | inl fresh ↦ (
            0,
            subst (λ (r : ℕ × ℕ). IsRun (suc limit) ((o, raw) ∷ t) b found r.0 r.1 0)
                (some-inj (rw (em, fresh, expired_run) at e))
                (none-IsRun (suc limit) n b found ((o, raw) ∷ t) h (low, wide, own, s)
                  (inr (m, em, leb→le cutoff m.store_at_ms fresh))),
          )
          | inr old ↦
              let at = own m em in
              let (k, r) =
                expired_run-IsRun limit (o + 1) (m.offset + 1) (found + 1) b' found' t (omega arith)
                  s (rw (em, old, expired_run) at e) in
              (suc k, longer m em old at k r)
        ]
      ]
    where
      longer :
          (m : Message)
          → decode raw ≡ some m
          → leb cutoff m.store_at_ms ≡ false
          → m.offset ≡ o
          → (k : ℕ) → IsRun limit t (m.offset + 1) (found + 1) b' found' k
          → IsRun (suc limit) ((o, raw) ∷ t) b found b' found' (suc k)
      longer m em old at k r =
          let passed : ltb o b' ≡ true = let a = r.ahead in ground arith in
          record {
            counted = let c = r.counted in omega arith;
            ahead = let a = r.ahead in omega arith;
            cut = unfold delete_below in rw passed r.cut;
            expired = ((m, em, ground arith), r.expired);
            within = let w = r.within in omega arith;
            stops = elim r.stops [ inl x ↦ inl (ap suc x) | inr y ↦ inr y ];
          }

  -- The queue without its first k messages, which are expired.
  abbrev Cut : Table (List ℕ) → Purged → ℕ → Type 0
  Cut t p k = (p.msgs ≡ drop k t) × All IsExpired (take k t) × (k ≤ max_purge_per_queue)

  -- As many as the call says, and it stopped for a reason.
  abbrev Whole : Table (List ℕ) → Purged → ℕ → Type 0
  Whole t p k = (p.found ≡ k) × ((k ≡ max_purge_per_queue) ⊎ Ends (drop k t))

  committed-Cut :
      (commit : Commit) (t : Table (List ℕ)) (b found k : ℕ)
      → IsRun max_purge_per_queue t 0 0 b found k
      → ((j : ℕ) × Cut t (commit_range commit b found t) j)
        × ((commit_range commit b found t).failed ≡ false
            → Cut t (commit_range commit b found t) k × Whole t (commit_range commit b found t) k)
  unfolding commit_range
  committed-Cut rejected t b found k r = ((0, (refl, tt, omega arith)), λ e. cc)
  committed-Cut unsynced t b found k r = ((k, (r.cut, r.expired, r.within)), λ e. cc)
  committed-Cut committed t b found k r =
      let same : found ≡ k = let c = r.counted in omega arith in
      ((k, (r.cut, r.expired, r.within)), λ e. ((r.cut, r.expired, r.within), (same, r.stops)))

  -- What a purge leaves is the queue without a number of its first messages, 10000 at most, each of
  -- which is expired, if the messages are stored in the order of their offsets: so it is on a node
  -- that does not lead the queue, where a message cannot be decoded, and whatever becomes of the
  -- batch.
  pub purge_queue-cuts :
      (leads : Bool) (commit : Commit) (t : Table (List ℕ))
      → IsStored decode 0 t
      → (k : ℕ) × ((purge_queue decode cutoff leads commit t).msgs ≡ drop k t)
        × All IsExpired (take k t)
        × (k ≤ max_purge_per_queue)
  unfolding purge_queue
  purge_queue-cuts leads commit t s =
      let (k, (msgs, expired, within)) = cut in (k, msgs, expired, within)
    where
      cut : (k : ℕ) × Cut t (purge_queue decode cutoff leads commit t) k
      cut =
          unfold purge_queue in
          if-elim (λ (p : Purged). (k : ℕ) × Cut t p k) (not leads) _ _
            (λ e. (0, (refl, tt, omega arith)))
            (λ e. elim (Option-cases (expired_run decode cutoff max_purge_per_queue t 0 0)) [
              | inl z ↦ simp z (0, (refl, tt, omega arith))
              | inr ((b, found), er) ↦
                  let (k, r) =
                    expired_run-IsRun max_purge_per_queue 0 0 0 b found t (omega arith) s er in
                  simp er (
                    if-elim (λ (p : Purged). (j : ℕ) × Cut t p j) (found == 0) _ _
                      (λ f. (0, (refl, tt, omega arith)))
                      (λ f. (committed-Cut commit t b found k r).0))
            ])

  -- If the messages are stored in the order of their offsets, a purge that succeeds on the node
  -- that leads the queue removes exactly as many of its first messages as it says, all of them
  -- expired, and stops at 10000, at the end of the queue or at a message that is not expired.
  pub purge_queue-whole :
      (commit : Commit) (t : Table (List ℕ))
      → IsStored decode 0 t
      → (purge_queue decode cutoff true commit t).failed ≡ false
      → (k : ℕ) × ((purge_queue decode cutoff true commit t).msgs ≡ drop k t)
        × All IsExpired (take k t)
        × ((purge_queue decode cutoff true commit t).found ≡ k)
        × ((k ≡ max_purge_per_queue) ⊎ Ends (drop k t))
  unfolding purge_queue
  purge_queue-whole commit t s =
      elim (Option-cases (expired_run decode cutoff max_purge_per_queue t 0 0)) [
        | inl z ↦ simp z (λ e. cc)
        | inr ((b, found), er) ↦
            let (k, r) = expired_run-IsRun max_purge_per_queue 0 0 0 b found t (omega arith) s er in
            simp er (
              if-elim Result (found == 0) _ _ (λ f e. nothing k b found r (ground arith))
                (λ f e.
                  let (c, w) = (committed-Cut commit t b found k r).1 e in (k, c.0, c.1, w.0, w.1)))
      ]
    where
      Result : Purged → Type 0
      Result p =
          p.failed ≡ false
          → (k : ℕ) × (p.msgs ≡ drop k t)
            × All IsExpired (take k t)
            × (p.found ≡ k)
            × ((k ≡ max_purge_per_queue) ⊎ Ends (drop k t))

      nothing :
          (k b found : ℕ)
          → IsRun max_purge_per_queue t 0 0 b found k
          → found ≡ 0
          → (j : ℕ) × (t ≡ drop j t)
            × All IsExpired (take j t)
            × (0 ≡ j)
            × ((j ≡ max_purge_per_queue) ⊎ Ends (drop j t))
      nothing k b found r z =
          let zero' : k ≡ 0 = let c = r.counted in omega arith in
          (
            0,
            refl,
            tt,
            refl,
            subst (λ (j : ℕ). (j ≡ max_purge_per_queue) ⊎ Ends (drop j t)) zero' r.stops,
          )
