-- ===== src/Seglog/Live.antt =====
-- What the log amounts to, said without the order of the writes: an entry stands in it unless an
-- entry that was written later has the same index or a smaller one.
use sq.Common.{
  ℕ, suc, ◌≤◌, ◌<◌, ◌≡◌, refl, ap, sym, ◌∙◌, arith, Bool, true, false, ◌&&◌, List, [], ◌∷◌, ◌++◌,
  Option, none, some, leb, ltb, if◌then◌else◌, append_assoc, append-nil, Bool-cases, inl, inr,
}
use sq.Seglog.Scan.{Codec, Replay, cut_entries}
use sq.Seglog.Replay.{Record, apply_all, entry_record, hard_record}
use sq.Seglog.Recovery.{apply_all-replay, replay_all, step}

module _ {E H : Type 0} (c : Codec E H) where
  -- No record writes over the index i.
  unfoldable pub survives : ℕ → List (Record E H) → Bool
  survives i [] = true
  survives i (hard_record h ∷ xs) = survives i xs
  survives i (entry_record e ∷ xs) = ltb i (c.index e) && survives i xs

  -- The entries that nothing writes over, the last one first.
  unfoldable pub live : List (Record E H) → List E
  live [] = []
  live (hard_record h ∷ xs) = live xs
  live (entry_record e ∷ xs) = live xs ++ (if survives (c.index e) xs then e ∷ [] else [])

  -- The last hard state.
  unfoldable pub last_hard : Option H → List (Record E H) → Option H
  last_hard o [] = o
  last_hard o (hard_record h ∷ xs) = last_hard (some h) xs
  last_hard o (entry_record e ∷ xs) = last_hard o xs

  unfoldable surviving : List (Record E H) → List E → List E
  surviving xs [] = []
  surviving xs (e ∷ es) =
      let rest = surviving xs es in if survives (c.index e) xs then e ∷ rest else rest

  -- The entries descend from below n on.
  abbrev Descends : ℕ → List E → Type 0
  Descends n [] = Unit {0}
  Descends n (e ∷ es) = (c.index e < n) × Descends (c.index e) es

  Descends-weaken : (m n : ℕ) (es : List E) → m ≤ n → Descends m es → Descends n es
  Descends-weaken m n [] h d = tt
  Descends-weaken m n (e ∷ es) h (a, d) = (omega arith, d)

  cut-Descends : (i n : ℕ) (es : List E) → Descends n es → Descends i (cut_entries c i es)
  unfolding cut_entries
  cut-Descends i n [] d = tt
  cut-Descends i n (e ∷ es) (a, d) = elim (Bool-cases (leb i (c.index e))) [
    | inl y ↦ rw y (cut-Descends i (c.index e) es d)
    | inr y ↦ rw y (ground arith, d)
  ]

  below-surviving :
      (i : ℕ) (xs : List (Record E H)) (x : E) (es : List E)
      → c.index x ≡ i
      → Descends i es
      → surviving (entry_record x ∷ xs) es ≡ surviving xs es
  unfolding surviving survives
  below-surviving i xs x [] e d = refl
  below-surviving i xs x (y ∷ es) e (a, d) =
      let less : ltb (c.index y) (c.index x) ≡ true = ground arith in
      rw (less, below-surviving i xs x es e (Descends-weaken (c.index y) i es (omega arith) d)) refl

  surviving-cut :
      (n : ℕ) (xs : List (Record E H)) (x : E) (es : List E)
      → Descends n es
      → surviving (entry_record x ∷ xs) es ≡ surviving xs (cut_entries c (c.index x) es)
  unfolding surviving cut_entries survives
  surviving-cut n xs x [] d = refl
  surviving-cut n xs x (y ∷ es) (a, d) = elim (Bool-cases (leb (c.index x) (c.index y))) [
    | inl h ↦
        let more : ltb (c.index y) (c.index x) ≡ false = ground arith in
        rw (h, survives, more) (surviving-cut (c.index y) xs x es d)
    | inr h ↦ rw h (below-surviving (c.index x) xs x (y ∷ es) refl (ground arith, d))
  ]

  add_last :
      (b : Bool) (xs : List E) (e : E) (ys : List E)
      → xs ++ (if b then e ∷ ys else ys) ≡ (xs ++ (if b then e ∷ [] else [])) ++ ys
  add_last true xs e ys = sym (append_assoc xs (e ∷ []) ys)
  add_last false xs e ys = sym (ap (λ (l : List E). l ++ ys) (append-nil xs))

  kept-Descends :
      (r : Replay E H) (i : ℕ)
      → Descends (suc r.last_index) r.ents
      → Descends i (if leb i r.last_index then cut_entries c i r.ents else r.ents)
  kept-Descends r i d = elim (Bool-cases (leb i r.last_index)) [
    | inl h ↦ rw h (cut-Descends i (suc r.last_index) r.ents d)
    | inr h ↦ rw h (Descends-weaken (suc r.last_index) i r.ents (ground arith) d)
  ]

  kept-surviving :
      (r : Replay E H) (e : E) (xs : List (Record E H))
      → Descends (suc r.last_index) r.ents
      → surviving xs
          (if leb (c.index e) r.last_index then cut_entries c (c.index e) r.ents else r.ents)
        ≡ surviving (entry_record e ∷ xs) r.ents
  kept-surviving r e xs d = elim (Bool-cases (leb (c.index e) r.last_index)) [
    | inl h ↦ rw h (sym (surviving-cut (suc r.last_index) xs e r.ents d))
    | inr h ↦ rw h (
        sym (
          below-surviving (c.index e) xs e r.ents refl
            (Descends-weaken (suc r.last_index) (c.index e) r.ents (ground arith) d)))
  ]

  surviving-none : (es : List E) → surviving [] es ≡ es
  unfolding surviving survives
  surviving-none [] = refl
  surviving-none (e ∷ es) = ap (◌∷◌ e) (surviving-none es)

  surviving-hard :
      (h : H) (xs : List (Record E H)) (es : List E)
      → surviving xs es ≡ surviving (hard_record h ∷ xs) es
  unfolding surviving survives
  surviving-hard h xs [] = refl
  surviving-hard h xs (e ∷ es) =
      ap (λ (l : List E). if survives (c.index e) xs then e ∷ l else l) (surviving-hard h xs es)

  replay_all-ents :
      (xs : List (Record E H)) (r : Replay E H)
      → Descends (suc r.last_index) r.ents
      → (replay_all c xs r).ents ≡ live xs ++ surviving xs r.ents
  unfolding replay_all step live surviving
  replay_all-ents [] r d = sym (surviving-none r.ents)
  replay_all-ents (hard_record h ∷ xs) r d =
      replay_all-ents xs (step c (hard_record h) r) d
      ∙ ap (◌++◌ (live xs)) (surviving-hard h xs r.ents)
  replay_all-ents (entry_record e ∷ xs) r d =
      let kept =
        if leb (c.index e) r.last_index then cut_entries c (c.index e) r.ents else r.ents in
      replay_all-ents xs (step c (entry_record e) r) (omega arith, kept-Descends r (c.index e) d)
      ∙ add_last (survives (c.index e) xs) (live xs) e (surviving xs kept)
      ∙ ap (◌++◌ (live (entry_record e ∷ xs))) (kept-surviving r e xs d)

  replay_all-hs :
      (xs : List (Record E H)) (r : Replay E H) → (replay_all c xs r).hs ≡ last_hard r.hs xs
  unfolding replay_all step last_hard
  replay_all-hs [] r = refl
  replay_all-hs (hard_record h ∷ xs) r = replay_all-hs xs (step c (hard_record h) r)
  replay_all-hs (entry_record e ∷ xs) r = replay_all-hs xs (step c (entry_record e) r)

  abbrev pub nothing_read : Replay E H
  nothing_read = record { hs = none; ents = []; last_index = 0 }

  pub replay_all-live :
      (xs : List (Record E H))
      → ((replay_all c xs nothing_read).ents ≡ live xs)
        × ((replay_all c xs nothing_read).hs ≡ last_hard none xs)
  unfolding surviving
  replay_all-live xs =
      (replay_all-ents xs nothing_read tt ∙ append-nil (live xs), replay_all-hs xs nothing_read)

  -- The entries that the scan keeps are those that no later entry record writes over, in the order
  -- of the records, the last one first; the hard state is the last one.
  pub apply_all-live :
      (xs : List (Record E H))
      → ((apply_all c xs (record { replay = nothing_read; max = 0 })).replay.ents ≡ live xs)
        × ((apply_all c xs (record { replay = nothing_read; max = 0 })).replay.hs
            ≡ last_hard none xs)
  apply_all-live xs =
      let same = apply_all-replay c xs (record { replay = nothing_read; max = 0 }) in
      (
        ap (λ (r : Replay E H). r.ents) same ∙ (replay_all-live xs).0,
        ap (λ (r : Replay E H). r.hs) same ∙ (replay_all-live xs).1,
      )
