-- ===== src/Filter/Monotone.antt =====
-- What more properties do to the evaluation of an SQL92 expression.
use sq.Common.{
  ℕ, Bool, true, false, ◌&&◌, List, [], ◌∷◌, none, some, ◌≡◌, refl, arith, ◌⊎◌, inl, inr,
  Option-cases,
}
use sq.Message.{Message}
use sq.Filter.{Result, result_false, result_unknown}
use sq.Filter.Logic.{and3, or3, not3}
use sq.Filter.Sql.{
  Floats, Constant, ConstKind, const_number, const_string, const_bool, const_null, Node, or_node,
  and_node, not_node, cmp_node, between_node, in_node, is_null_node, Op, op_eq, eval_node, eval_cmp,
  eval_bounds, eval_between, eval_in_loop, lookup_prop, negate_if,
}

-- The expression asks nowhere whether a property is missing.
unfoldable pub null_free : {F : Type 0} → Node F → Bool
null_free (or_node l r) = null_free l && null_free r
null_free (and_node l r) = null_free l && null_free r
null_free (not_node n) = null_free n
null_free (cmp_node ident op v) = true
null_free (between_node ident lo hi negated) = true
null_free (in_node ident vals negated) = true
null_free (is_null_node ident negated) = false

-- The second message has all that the expression can read of the first, and maybe more.
abbrev pub Extends : Message → Message → Type 0
Extends m m' = (ident v : List ℕ) → lookup_prop m ident ≡ some v → lookup_prop m' ident ≡ some v

-- A result that is known stays.
abbrev pub Settles : Result → Result → Type 0
Settles a b = (a ≡ result_unknown) ⊎ (a ≡ b)

Settles-and3 : (a b c d : Result) → Settles a c → Settles b d → Settles (and3 a b) (and3 c d)
unfolding and3
Settles-and3 a b c d h k = ground (arith, a, b, c, d, h, k)

Settles-or3 : (a b c d : Result) → Settles a c → Settles b d → Settles (or3 a b) (or3 c d)
unfolding or3
Settles-or3 a b c d h k = ground (arith, a, b, c, d, h, k)

Settles-not3 : (a c : Result) → Settles a c → Settles (not3 a) (not3 c)
unfolding not3
Settles-not3 a c h = ground (arith, a, c, h)

module _ {F : Type 0} (floats : Floats F) (m m' : Message) (more : Extends m m') where
  Settles-negate_if :
      (n : Bool) (a c : Result)
      → Settles a c
      → Settles (negate_if floats n a) (negate_if floats n c)
  Settles-negate_if true a c h = Settles-not3 a c h
  Settles-negate_if false a c h = h

  Settles-eval_cmp :
      (ident : List ℕ) (op : Op) (v : Constant F)
      → Settles (eval_cmp floats ident op v m) (eval_cmp floats ident op v m')
  unfolding eval_cmp
  Settles-eval_cmp ident op v = elim (Option-cases (lookup_prop m ident)) [
    | inl e ↦ inl (rw (eval_cmp, e) refl)
    | inr (prop, e) ↦ inr (rw (eval_cmp, e, more ident prop e) refl)
  ]

  eval_bounds-none :
      (k : ConstKind) (lo hi : Constant F) (n : Bool)
      → eval_bounds floats k lo hi n none ≡ result_unknown
  unfolding eval_bounds
  eval_bounds-none const_number lo hi n = refl
  eval_bounds-none const_string lo hi n = refl
  eval_bounds-none const_bool lo hi n = refl
  eval_bounds-none const_null lo hi n = refl

  Settles-eval_between :
      (ident : List ℕ) (lo hi : Constant F) (n : Bool)
      → Settles (eval_between floats ident lo hi n m) (eval_between floats ident lo hi n m')
  unfolding eval_between
  Settles-eval_between ident lo hi n = elim (Option-cases (lookup_prop m ident)) [
    | inl e ↦ inl (rw e (eval_bounds-none lo.kind lo hi n))
    | inr (prop, e) ↦ inr (rw (e, more ident prop e) refl)
  ]

  Settles-eval_in_loop :
      (ident : List ℕ) (vals : List (Constant F)) (a c : Result)
      → Settles a c
      → Settles (eval_in_loop floats ident vals m a) (eval_in_loop floats ident vals m' c)
  unfolding eval_in_loop
  Settles-eval_in_loop ident [] a c h = h
  Settles-eval_in_loop ident (v ∷ vals) a c h = Settles-eval_in_loop ident vals _ _ (
      Settles-or3 a (eval_cmp floats ident op_eq v m) c (eval_cmp floats ident op_eq v m') h
        (Settles-eval_cmp ident op_eq v))

  -- An expression without IS NULL that is TRUE or FALSE of a message keeps that value when the
  -- message gains properties: a missing property can only make it UNKNOWN, through every NOT, AND,
  -- OR, BETWEEN and IN.
  pub eval_node-Settles :
      (n : Node F) → null_free n ≡ true → Settles (eval_node floats n m) (eval_node floats n m')
  unfolding eval_node null_free
  eval_node-Settles (or_node l r) h =
      Settles-or3 _ _ _ _ (eval_node-Settles l (ground arith)) (eval_node-Settles r (ground arith))
  eval_node-Settles (and_node l r) h =
      Settles-and3 _ _ _ _ (eval_node-Settles l (ground arith)) (eval_node-Settles r (ground arith))
  eval_node-Settles (not_node n) h = Settles-not3 _ _ (eval_node-Settles n h)
  eval_node-Settles (cmp_node ident op v) h = Settles-eval_cmp ident op v
  eval_node-Settles (between_node ident lo hi negated) h = Settles-eval_between ident lo hi negated
  eval_node-Settles (in_node ident vals negated) h =
      Settles-negate_if negated _ _
        (Settles-eval_in_loop ident vals result_false result_false (inr refl))
  eval_node-Settles (is_null_node ident negated) h = absurd (ground arith)
