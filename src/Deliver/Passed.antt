-- ===== src/Deliver/Passed.antt =====
-- The messages that the cursor passes in a receive: none is lost.
use sq.Common.{
  ℕ, zero, suc, ◌+◌, ◌≤◌, ◌<◌, ◌≡◌, ap, sym, ◌∙◌, arith, Bool, true, false, List, [], ◌∷◌, Option,
  none, some, ◌⊎◌, inl, inr, ◌^◌, All,
}
use sq.Message.{Message}
use sq.Deliver.Table.{Table}
use sq.Deliver.Lease.{Inflight, milliseconds}
use sq.Deliver.State.{Context}
use sq.Deliver.Receive.{
  Request, Step, failed, goes_on, Fetch, Visit, broken, ends, continues, visit, skipped_one,
  delivered_one, fetch_all, is_true, is_ordered, new_inflight, apply_writes, apply_write,
}
use sq.Deliver.Marks.{present, present-insert}
use sq.Deliver.Invariant.{view}
use sq.Deliver.Fetching.{IsStored, visit_cases, Visit-elim}

module _ (c : Context) (r : Request) where
  -- The message is one that the filter does not let through, or its delivery is recorded.
  abbrev pub IsAccounted : Table Inflight → ℕ × List ℕ → Type 0
  IsAccounted t e =
      (m : Message)
      → c.decode e.1 ≡ some m
      → (is_true (r.filter.matches m) ≡ false) ⊎ (present e.0 t ≡ true)

  abbrev Grows : Fetch → Fetch → Type 0
  Grows f f' = (k : ℕ) → present k (view f.work) ≡ true → present k (view f'.work) ≡ true

  abbrev pub IsPassed : Fetch → ℕ × List ℕ → Type 0
  IsPassed f e = e.0 < f.new_cursor → IsAccounted (view f.work) e

  ahead-IsPassed :
      (n : ℕ) (f : Fetch) (t : Table (List ℕ))
      → f.new_cursor ≤ n
      → IsStored c.decode n t
      → All (IsPassed f) t
  ahead-IsPassed n f [] h st = tt
  ahead-IsPassed n f ((key, raw) ∷ t) h (a, b, own, st) =
      ((λ less. absurd (omega arith)), ahead-IsPassed (key + 1) f t (omega arith) st)

  abbrev VisitPasses : Fetch → ℕ × List ℕ → Visit → Type 0
  VisitPasses f e broken = Unit {0}
  VisitPasses f e (ends f') = Grows f f' × IsPassed f' e × (f'.new_cursor ≤ e.0 + 1)
  VisitPasses f e (continues f') =
      Grows f f' × IsAccounted (view f'.work) e × (f'.new_cursor ≡ e.0 + 1)

  delivered-present :
      (key : ℕ) (m : Message) (f : Fetch)
      → m.offset ≡ key
      → Grows f (delivered_one c r m f) × (present key (view (delivered_one c r m f).work) ≡ true)
  unfolding delivered_one apply_writes apply_write
  delivered-present key m f e =
      let st = new_inflight r c.now_ms (c.now_ms + milliseconds r.invisible) 1 (is_ordered m) in
      (
        λ k h. ground (arith, present-insert m.offset k st (view f.work)),
        ground (arith, present-insert m.offset key st (view f.work)),
      )

  delivered-cursor :
      (key : ℕ) (m : Message) (f : Fetch)
      → m.offset ≡ key
      → key + 1 < 2 ^ 64
      → (delivered_one c r m f).new_cursor ≡ key + 1
  unfolding delivered_one
  delivered-cursor key m f e b = omega arith

  abbrev verdict : Option Message → Bool
  verdict none = false
  verdict (some m) = is_true (r.filter.matches m)

  visit-Passes :
      (key : ℕ) (raw : List ℕ) (f : Fetch)
      → f.new_cursor ≤ key
      → key + 1 < 2 ^ 64
      → ((m : Message) → c.decode raw ≡ some m → m.offset ≡ key)
      → VisitPasses f (key, raw) (visit c r raw f)
  visit-Passes key raw f h b own =
      visit_cases c r (VisitPasses f (key, raw)) raw f (λ e. tt)
        (λ m e g.
          (unfold skipped_one in
            (λ k p. p, λ m' e'. inl (same_verdict raw m m' e e' g), omega (arith, own m e))))
        (λ m e l. (λ k p. p, λ less. absurd (omega arith), omega arith))
        (λ m e g l.
          let (grows, there) = delivered-present key m f (own m e) in
          let at = delivered-cursor key m f (own m e) b in
          (
            λ x. (grows, λ m' e'. inr there, at),
            (grows, λ less m' e'. inr there, omega (arith, at)),
          ))
    where
      same_verdict :
          (raw : List ℕ) (m m' : Message)
          → c.decode raw ≡ some m
          → c.decode raw ≡ some m'
          → is_true (r.filter.matches m) ≡ false
          → is_true (r.filter.matches m') ≡ false
      same_verdict raw m m' e e' g = ap verdict (sym e' ∙ e) ∙ g

  abbrev pub FetchPasses : Fetch → Table (List ℕ) → Step Fetch → Type 0
  FetchPasses f t (failed q) = Unit {0}
  FetchPasses f t (goes_on f') = Grows f f' × All (IsPassed f') t

  -- What one visit has done, and the rest of the scan after it.
  FetchPasses-later :
      (f f' : Fetch) (e : ℕ × List ℕ) (t : Table (List ℕ)) (s : Step Fetch)
      → Grows f f'
      → IsAccounted (view f'.work) e
      → FetchPasses f' t s
      → FetchPasses f (e ∷ t) s
  FetchPasses-later f f' e t (failed q) grows head rest = tt
  FetchPasses-later f f' e t (goes_on f'') grows head (more, rest) = (
    λ k p. more k (grows k p),
    (
      (λ less m d. elim (head m d) [ inl skip ↦ inl skip | inr there ↦ inr (more e.0 there) ]),
      rest,
    ),
  )

  pub fetch_all-Passes :
      (budget : ℕ) (t : Table (List ℕ)) (f : Fetch)
      → IsStored c.decode f.new_cursor t
      → FetchPasses f t (fetch_all c r budget t f)
  unfolding fetch_all
  fetch_all-Passes zero t f st = (λ k p. p, ahead-IsPassed f.new_cursor f t (omega arith) st)
  fetch_all-Passes (suc budget) [] f st = (λ k p. p, tt)
  fetch_all-Passes (suc budget) ((key, raw) ∷ t) f (h, b, own, st) =
      Visit-elim c r (VisitPasses f (key, raw)) (FetchPasses f ((key, raw) ∷ t)) (visit c r raw f)
        f.work.queue (fetch_all c r budget t) (visit-Passes key raw f h b own) tt
        (λ f' (grows, head, at). (grows, (head, ahead-IsPassed (key + 1) f' t at st)))
        (λ f' (grows, head, at).
          FetchPasses-later f f' (key, raw) t (fetch_all c r budget t f') grows head
            (fetch_all-Passes budget t f' (rw at st)))
