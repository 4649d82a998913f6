-- ===== src/Retention/Index.antt =====
-- What purgeKeyIdx removes of the key index.
use sq.Common.{
  ℕ, ◌-◌, ◌<◌, ◌≡◌, refl, ◌∙◌, subst, arith, Bool, true, not, List, [], ◌∷◌, Option, none, some,
  ltb, ◌==◌, if-elim, All, Option-cases, Bool-cases, inl, inr, ◌⊎◌, some-inj, none≢some, bytes_eq,
  bytes_eq_iff,
}
use sq.Deliver.State.{Commit, rejected, unsynced, committed}
use sq.Store.Keys.{key_idx_topic_prefix, parse_key_idx_key, prefix_upper_bound}
use sq.Store.Order.{in_range}
use sq.Txn.Records.{Records, delete, get, get-delete}
use sq.Retention.Purge.{
  apply_buckets, apply_found, delete_bucket, entries_of, expired_keys, max_purge_per_queue,
  purge_key_idx,
}

-- The key stands under the topic.
abbrev pub IsOfTopic : List ℕ → List ℕ → Type 0
IsOfTopic topic k =
    in_range (key_idx_topic_prefix topic) (prefix_upper_bound (key_idx_topic_prefix topic)) k ≡ true

-- The key of an entry of the queue that was stored before the cutoff.
abbrev pub IsOld : ℕ → ℕ × List ℕ → Type 0
IsOld cutoff (q, k) =
    (name : List ℕ) × (key : List ℕ) × (ms : ℕ) × (o : ℕ) × (parse_key_idx_key k
      ≡ some (name, key, ms, q, o))
    × (ms < cutoff)

entries_of-IsOfTopic :
    (topic : List ℕ) (t : Records)
    → All (λ (e : List ℕ × List ℕ). IsOfTopic topic e.0) (entries_of topic t)
unfolding entries_of
entries_of-IsOfTopic topic [] = tt
entries_of-IsOfTopic topic ((k, v) ∷ t) =
    if-elim (λ (r : Records). All (λ (e : List ℕ × List ℕ). IsOfTopic topic e.0) r)
      (in_range (key_idx_topic_prefix topic) (prefix_upper_bound (key_idx_topic_prefix topic)) k)
      ((k, v) ∷ entries_of topic t) (entries_of topic t) (λ e. (e, entries_of-IsOfTopic topic t))
      (λ e. entries_of-IsOfTopic topic t)

module _ (topic : List ℕ) (cutoff : ℕ) where
  abbrev pub Goes : ℕ × List ℕ → Type 0
  Goes e = IsOfTopic topic e.1 × IsOld cutoff e

  expired_keys-Goes :
      (left : ℕ) (t : Records) (found : List (ℕ × List ℕ))
      → All (λ (e : List ℕ × List ℕ). IsOfTopic topic e.0) t
      → expired_keys cutoff left t ≡ some found
      → All Goes found
  unfolding expired_keys
  expired_keys-Goes left [] found h e = subst (λ l. All Goes l) (some-inj e) tt
  expired_keys-Goes left ((k, v) ∷ t) found (h, hs) e = elim (Option-cases (parse_key_idx_key k)) [
    | inl z ↦ absurd (none≢some (rw (z, expired_keys) at e))
    | inr ((name, key, ms, q, o), em) ↦ elim (Bool-cases (ltb ms cutoff)) [
      | inr fresh ↦ expired_keys-Goes left t found hs (rw (em, fresh, expired_keys) at e)
      | inl old ↦
          let one : Goes (q, k) = (h, (name, key, ms, o, em, ground arith)) in
          elim (Bool-cases (left == 1)) [
            | inl last ↦
                subst (λ l. All Goes l) (some-inj (rw (em, old, last, expired_keys) at e)) (one, tt)
            | inr more ↦ elim (Option-cases (expired_keys cutoff (left - 1) t)) [
              | inl z ↦ absurd (none≢some (rw (em, old, more, z, expired_keys) at e))
              | inr (rest, er) ↦
                  subst (λ l. All Goes l) (some-inj (rw (em, old, more, er, expired_keys) at e))
                    (one, expired_keys-Goes (left - 1) t rest hs er)
            ]
          ]
    ]
  ]

  delete_bucket-get :
      (q : ℕ) (found : List (ℕ × List ℕ)) (k : List ℕ) (t : Records)
      → All Goes found
      → (get k (delete_bucket q found t) ≡ get k t) ⊎ Goes (q, k)
  unfolding delete_bucket
  delete_bucket-get q [] k t h = inl refl
  delete_bucket-get q ((j, i) ∷ found) k t (g, h) = elim (Bool-cases (j == q)) [
    | inr other ↦ rw other (delete_bucket-get q found k t h)
    | inl same ↦ rw same (elim (delete_bucket-get q found k (delete i t) h) [
      | inr goes ↦ inr goes
      | inl e ↦ elim (Bool-cases (bytes_eq i k)) [
        | inl hit ↦
            let queue : j ≡ q = ground arith in
            let key : i ≡ k = (bytes_eq_iff i k).0 hit in
            let pair : (j, i) ≡ (q, k) = cc in inr (subst Goes pair g)
        | inr miss ↦ inl (e ∙ get-delete i k t ∙ rw miss refl)
      ]
    ])
  ]

  abbrev Left : (ℕ → Bool) → List ℕ → Records → Records → Type 0
  Left leads k t t' = (get k t' ≡ get k t) ⊎ ((q : ℕ) × (leads q ≡ true) × Goes (q, k))

  apply_buckets-get :
      (leads : ℕ → Bool) (commit : ℕ → Commit) (found : List (ℕ × List ℕ)) (order k : List ℕ)
      → (t : Records) → All Goes found
      → Left leads k t (apply_buckets leads commit found order t).0
  unfolding apply_buckets
  apply_buckets-get leads commit found [] k t h = inl refl
  apply_buckets-get leads commit found (q ∷ order) k t h =
      if-elim (λ (r : Records × Bool). Left leads k t r.0) (not (leads q)) _ _
        (λ e. apply_buckets-get leads commit found order k t h)
        (λ e.
          let led : leads q ≡ true = ground arith in
          elim (commit q)
            as (λ c.
              Left leads k t
                (elim c as (λ x. Records × Bool) [
                  | rejected ↦ (t, true)
                  | unsynced ↦ (delete_bucket q found t, true)
                  | committed ↦ apply_buckets leads commit found order (delete_bucket q found t)
                ]).0) [
                  | rejected ↦ inl refl
                  | unsynced ↦ deleted led
                  | committed ↦
                      joined (delete_bucket q found t) _ (deleted led)
                        (apply_buckets-get leads commit found order k (delete_bucket q found t) h)
                ])
    where
      deleted : leads q ≡ true → Left leads k t (delete_bucket q found t)
      deleted led = elim (delete_bucket-get q found k t h) [
        | inl e ↦ inl e
        | inr g ↦ inr (q, led, g)
      ]

      joined : (t₁ t₂ : Records) → Left leads k t t₁ → Left leads k t₁ t₂ → Left leads k t t₂
      joined t₁ t₂ (inr g) l = inr g
      joined t₁ t₂ (inl e) (inr g) = inr g
      joined t₁ t₂ (inl e) (inl f) = inl (f ∙ e)

  apply_found-get :
      (leads : ℕ → Bool) (commit : ℕ → Commit) (found : List (ℕ × List ℕ)) (order k : List ℕ)
      → (t : Records) → All Goes found
      → Left leads k t (apply_found leads commit found order t).0
  unfolding apply_found
  apply_found-get leads commit [] order k t h = inl refl
  apply_found-get leads commit (one ∷ more) order k t h =
      apply_buckets-get leads commit (one ∷ more) order k t h

  -- A record that a purge of the key index of a topic takes or changes is an entry of that topic,
  -- stored before the cutoff, of a queue that the node leads: so it is in whatever order the buckets
  -- are applied, whatever becomes of each batch, and where a key does not parse.
  pub purge_key_idx-get :
      (leads : ℕ → Bool) (commit : ℕ → Commit) (order k : List ℕ) (t : Records)
      → (get k (purge_key_idx leads commit order topic cutoff t).0 ≡ get k t)
        ⊎ ((q : ℕ) × (leads q ≡ true) × Goes (q, k))
  unfolding purge_key_idx
  purge_key_idx-get leads commit order k t =
      by_scan (expired_keys cutoff max_purge_per_queue (entries_of topic t)) refl
    where
      by_scan :
          (r : Option (List (ℕ × List ℕ)))
          → expired_keys cutoff max_purge_per_queue (entries_of topic t) ≡ r
          → Left leads k t
              (elim r as (λ x. Records × Bool) [
                | none ↦ (t, true)
                | some found ↦ apply_found leads commit found order t
              ]).0
      by_scan none e = inl refl
      by_scan (some found) e = apply_found-get leads commit found order k t (
          expired_keys-Goes max_purge_per_queue (entries_of topic t) found
            (entries_of-IsOfTopic topic t) e)
