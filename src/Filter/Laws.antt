-- ===== src/Filter/Laws.antt =====
-- The SQL92 evaluation against the meaning of its operators: BETWEEN and IN are their expansions,
-- and the connectives obey the laws of three-valued logic.
use sq.Common.{
  ℕ, Bool, true, false, List, [], ◌∷◌, Option, none, some, ◌≡◌, refl, ◌∙◌, ap, arith, inl, inr,
  Option-cases,
}
use sq.Message.{Message}
use sq.Filter.{Result, result_false, result_unknown}
use sq.Filter.Logic.{and3, or3, not3}
use sq.Filter.Sql.{
  Floats, Constant, ConstKind, const_number, Node, or_node, and_node, not_node, cmp_node,
  between_node, in_node, Op, op_eq, op_ge, op_le, eval_node, eval_cmp, eval_const, eval_bounds,
  eval_between, eval_in_loop, lookup_prop, negate_if, eval_num_cmp,
}

not3-and3 : (a b : Result) → not3 (and3 a b) ≡ or3 (not3 a) (not3 b)
unfolding not3 and3 or3
not3-and3 a b = ground (arith, a, b)

not3-or3 : (a b : Result) → not3 (or3 a b) ≡ and3 (not3 a) (not3 b)
unfolding not3 and3 or3
not3-or3 a b = ground (arith, a, b)

or3-false : (a : Result) → or3 result_false a ≡ a
unfolding or3
or3-false a = ground (arith, a)

module _ {F : Type 0} (floats : Floats F) (m : Message) where
  -- The expression `ident >= lo AND ident <= hi`, under a NOT where the BETWEEN has one.
  abbrev pub between_expanded : List ℕ → Constant F → Constant F → Bool → Node F
  between_expanded ident lo hi true =
      not_node (and_node (cmp_node ident op_ge lo) (cmp_node ident op_le hi))
  between_expanded ident lo hi false = and_node (cmp_node ident op_ge lo) (cmp_node ident op_le hi)

  -- The expression `ident = v OR ident = v2 OR ...`, to the left of the first OR an expression so
  -- far.
  abbrev pub or_chain : List ℕ → List (Constant F) → Node F → Node F
  or_chain ident [] n = n
  or_chain ident (v ∷ vals) n = or_chain ident vals (or_node n (cmp_node ident op_eq v))

  abbrev pub in_expanded : List ℕ → Constant F → List (Constant F) → Bool → Node F
  in_expanded ident v vals true = not_node (or_chain ident vals (cmp_node ident op_eq v))
  in_expanded ident v vals false = or_chain ident vals (cmp_node ident op_eq v)

  -- The comparison with a numeric constant, by what the property is.
  abbrev by_number : Op → Constant F → Option (List ℕ) → Result
  by_number op v none = result_unknown
  by_number op v (some prop) = eval_num_cmp floats op v prop

  eval_cmp-by_number :
      (ident : List ℕ) (op : Op) (v : Constant F)
      → v.kind ≡ const_number
      → eval_cmp floats ident op v m ≡ by_number op v (lookup_prop m ident)
  unfolding eval_cmp eval_const
  eval_cmp-by_number ident op v e = elim (Option-cases (lookup_prop m ident)) [
    | inl g ↦ rw (eval_cmp, g) refl
    | inr (prop, g) ↦ rw (eval_cmp, g) (ap (λ (k : ConstKind). eval_const floats k op v prop) e)
  ]

  eval_bounds_number :
      (lo hi : Constant F) (negated : Bool) (p : Option (List ℕ))
      → eval_bounds floats const_number lo hi negated p
        ≡ negate_if floats negated (and3 (by_number op_ge lo p) (by_number op_le hi p))
  unfolding eval_bounds and3 not3
  eval_bounds_number lo hi true none = refl
  eval_bounds_number lo hi false none = refl
  eval_bounds_number lo hi negated (some prop) = refl

  -- A BETWEEN with numeric bounds, negated or not, evaluates as the expression it stands for, in all
  -- three values, also where the property is missing or is no number.
  pub eval_node-between :
      (ident : List ℕ) (lo hi : Constant F) (negated : Bool)
      → lo.kind ≡ const_number
      → hi.kind ≡ const_number
      → eval_node floats (between_node ident lo hi negated) m
        ≡ eval_node floats (between_expanded ident lo hi negated) m
  unfolding eval_node eval_between
  eval_node-between ident lo hi negated e f =
      ap (λ (k : ConstKind). eval_bounds floats k lo hi negated (lookup_prop m ident)) e
      ∙ eval_bounds_number lo hi negated (lookup_prop m ident)
      ∙ expanded negated
    where
      expanded :
          (n : Bool)
          → negate_if floats n (
              and3
                (by_number op_ge lo (lookup_prop m ident))
                (by_number op_le hi (lookup_prop m ident)))
            ≡ eval_node floats (between_expanded ident lo hi n) m
      expanded true =
          rw (eval_cmp-by_number ident op_ge lo e, eval_cmp-by_number ident op_le hi f) refl
      expanded false =
          rw (eval_cmp-by_number ident op_ge lo e, eval_cmp-by_number ident op_le hi f) refl

  in_loop :
      (ident : List ℕ) (vals : List (Constant F)) (n : Node F)
      → eval_in_loop floats ident vals m (eval_node floats n m)
        ≡ eval_node floats (or_chain ident vals n) m
  unfolding eval_node eval_in_loop
  in_loop ident [] n = refl
  in_loop ident (v ∷ vals) n = in_loop ident vals (or_node n (cmp_node ident op_eq v))

  -- An IN over a list that is not empty, negated or not, evaluates as the chain of equalities joined
  -- by OR that it stands for.
  pub eval_node-in :
      (ident : List ℕ) (v : Constant F) (vals : List (Constant F)) (negated : Bool)
      → eval_node floats (in_node ident (v ∷ vals) negated) m
        ≡ eval_node floats (in_expanded ident v vals negated) m
  unfolding eval_node eval_in_loop
  eval_node-in ident v vals true = ap not3 (
      rw (or3-false (eval_cmp floats ident op_eq v m))
        (in_loop ident vals (cmp_node ident op_eq v)))
  eval_node-in ident v vals false =
      rw (or3-false (eval_cmp floats ident op_eq v m)) (in_loop ident vals (cmp_node ident op_eq v))

  -- De Morgan's laws hold for NOT over AND and over OR, with UNKNOWN as well.
  pub eval_node-not_node :
      (a b : Node F)
      → (eval_node floats (not_node (and_node a b)) m
          ≡ eval_node floats (or_node (not_node a) (not_node b)) m)
        × (eval_node floats (not_node (or_node a b)) m
            ≡ eval_node floats (and_node (not_node a) (not_node b)) m)
  unfolding eval_node
  eval_node-not_node a b = (
    not3-and3 (eval_node floats a m) (eval_node floats b m),
    not3-or3 (eval_node floats a m) (eval_node floats b m),
  )
