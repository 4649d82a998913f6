-- ===== src/Filter/Accepted.antt =====
-- What buildSQLFilter accepts: an independent description of the trees that pass validate.
use sq.Common.{
  ℕ, suc, ◌+◌, ◌≤◌, ◌<◌, ◌≡◌, ◌≢◌, ◌↔◌, refl, sym, ◌∙◌, subst, arith, true, false, List, [], ◌∷◌,
  Option, none, some, ltb, if◌then◌else◌, length, Bool-cases, Option-cases, inl, inr, ◌⊎◌, All,
  none≢some,
}
use Prim.Native.Nat.{max}
use sq.Filter.Sql.{
  ConstKind, Constant, Node, Op, and_node, between_node, cmp_node, const_bool, const_null,
  const_number, const_string, in_node, is_null_node, not_node, op_eq, op_ge, op_gt, op_le, op_lt,
  op_ne, or_node,
}
use sq.Filter.Lexer.{lex}
use sq.Filter.Parser.{Numbers, max_ast_depth}
use sq.Filter.Build.{
  Built, Invalid, both, build_sql_filter, built, check_bounds, check_compare, check_list, has_null,
  invalid, is_float, lex_fails, max_expr_bytes, max_in_elems, mixed, mixed_list, nested_too_deep,
  out_of_fuel, parse_fails, parse_sql92, same_kind, too_long, validate, validated,
}

-- An operator that orders takes a number; `=` and `<>` take anything but NULL.
abbrev pub Compares : Op → ConstKind → Type 0
Compares op const_number = Unit {0}
Compares op const_null = ⊥
Compares op kind = (op ≡ op_eq) ⊎ (op ≡ op_ne)

module _ {F : Type 0} where
  -- One kind, and not that of NULL.
  abbrev pub OneKind : List (Constant F) → Type 0
  OneKind [] = Unit {0}
  OneKind (v ∷ vals) = (v.kind ≢ const_null) × All (λ w. w.kind ≡ v.kind) vals

  abbrev pub height : Node F → ℕ
  height (or_node l r) = suc (max (height l) (height r))
  height (and_node l r) = suc (max (height l) (height r))
  height (not_node n) = suc (height n)
  height n = 1

  pub height_pos : (n : Node F) → 0 < height n
  height_pos (or_node l r) = omega arith
  height_pos (and_node l r) = omega arith
  height_pos (not_node n) = omega arith
  height_pos n = omega arith

  -- Every leaf of the tree has a meaning.
  abbrev pub IsMeaningful : Node F → Type 0
  IsMeaningful (or_node l r) = IsMeaningful l × IsMeaningful r
  IsMeaningful (and_node l r) = IsMeaningful l × IsMeaningful r
  IsMeaningful (not_node n) = IsMeaningful n
  IsMeaningful (cmp_node ident op v) = Compares op v.kind
  IsMeaningful (between_node ident lo hi negated) =
      (lo.kind ≡ const_number) × (hi.kind ≡ const_number)
  IsMeaningful (in_node ident vals negated) = (length vals ≤ max_in_elems) × OneKind vals
  IsMeaningful (is_null_node ident negated) = Unit {0}

check_compare_iff : (op : Op) (k : ConstKind) → (check_compare op k ≡ none) ↔ Compares op k
unfolding check_compare
check_compare_iff op const_number = (λ e. tt, λ h. refl)
check_compare_iff op const_null = (λ e. cc, λ h. absurd h)
check_compare_iff op_eq const_string = (λ e. inl refl, λ h. refl)
check_compare_iff op_ne const_string = (λ e. inr refl, λ h. refl)
check_compare_iff op_eq const_bool = (λ e. inl refl, λ h. refl)
check_compare_iff op_ne const_bool = (λ e. inr refl, λ h. refl)
check_compare_iff op_gt const_string = (λ e. cc, λ h. ground arith)
check_compare_iff op_ge const_string = (λ e. cc, λ h. ground arith)
check_compare_iff op_lt const_string = (λ e. cc, λ h. ground arith)
check_compare_iff op_le const_string = (λ e. cc, λ h. ground arith)
check_compare_iff op_gt const_bool = (λ e. cc, λ h. ground arith)
check_compare_iff op_ge const_bool = (λ e. cc, λ h. ground arith)
check_compare_iff op_lt const_bool = (λ e. cc, λ h. ground arith)
check_compare_iff op_le const_bool = (λ e. cc, λ h. ground arith)

same_kind_iff : (a b : ConstKind) → (same_kind a b ≡ true) ↔ (a ≡ b)
same_kind_iff const_number const_number = (λ e. refl, λ e. refl)
same_kind_iff const_string const_string = (λ e. refl, λ e. refl)
same_kind_iff const_bool const_bool = (λ e. refl, λ e. refl)
same_kind_iff const_null const_null = (λ e. refl, λ e. refl)
same_kind_iff a b = (λ e. cc, λ e. cc)

check_bounds_iff :
    (lo hi : ConstKind) → (check_bounds lo hi ≡ none) ↔ ((lo ≡ const_number) × (hi ≡ const_number))
unfolding check_bounds
check_bounds_iff const_number const_number = (λ e. (refl, refl), λ h. refl)
check_bounds_iff lo hi = (λ e. ground arith, λ h. ground arith)

guard_iff :
    (d : ℕ) (e : Invalid) (o : Option Invalid)
    → ((if ltb max_ast_depth d then some e else o) ≡ none) ↔ ((d ≤ max_ast_depth) × (o ≡ none))
guard_iff d e o = (λ h. ground arith, λ h. ground arith)

both_iff : (a b : Option Invalid) → (both a b ≡ none) ↔ ((a ≡ none) × (b ≡ none))
both_iff none b = (λ h. (refl, h), λ h. h.1)
both_iff (some e) b = (λ h. cc, λ h. cc)

validate_both :
    (e : Invalid) (a b : Option Invalid) (m n d : ℕ) (P Q : Type 0)
    → (a ≡ none) ↔ ((m + (d + 1) ≤ max_ast_depth + 1) × P)
    → (b ≡ none) ↔ ((n + (d + 1) ≤ max_ast_depth + 1) × Q)
    → ((if ltb max_ast_depth d then some e else both a b) ≡ none)
      ↔ ((suc (max m n) + d ≤ max_ast_depth + 1) × (P × Q))
validate_both e a b m n d P Q l r = (
  λ h.
      let parts = (both_iff a b).0 ((guard_iff d e (both a b)).0 h).1 in
      let left = l.0 parts.0 in let right = r.0 parts.1 in (omega arith, (left.1, right.1)),
  λ h.
      (guard_iff d e (both a b)).1
        (omega arith, (both_iff a b).1 (l.1 (omega arith, h.1.0), r.1 (omega arith, h.1.1))),
)

module _ {F : Type 0} where
  mixed_iff :
      (k : ConstKind) (vals : List (Constant F))
      → (mixed k vals ≡ false) ↔ All (λ v. v.kind ≡ k) vals
  unfolding mixed
  mixed_iff k [] = (λ h. tt, λ h. refl)
  mixed_iff k (v ∷ vals) = (
    λ h. ground (arith, same_kind_iff v.kind k, mixed_iff k vals),
    λ h. ground (arith, same_kind_iff v.kind k, mixed_iff k vals),
  )

  has_null-of :
      (k : ConstKind) (vals : List (Constant F))
      → k ≢ const_null
      → All (λ v. v.kind ≡ k) vals
      → has_null vals ≡ false
  unfolding has_null
  has_null-of k [] h a = refl
  has_null-of k (v ∷ vals) h (e, a) =
      ground (arith, same_kind_iff v.kind const_null, has_null-of k vals h a)

  check_list_iff :
      (vals : List (Constant F))
      → (check_list vals ≡ none) ↔ ((length vals ≤ max_in_elems) × OneKind vals)
  unfolding check_list mixed_list has_null
  check_list_iff [] = (λ h. (omega arith, tt), λ h. refl)
  check_list_iff (v ∷ vals) = (
    λ h. ground (arith, same_kind_iff v.kind const_null, mixed_iff v.kind vals),
    λ h. ground (
      arith,
      same_kind_iff v.kind const_null,
      mixed_iff v.kind vals,
      has_null-of v.kind vals h.1.0 h.1.1,
    ),
  )

  validate_iff :
      (n : Node F) (d : ℕ)
      → (validate n d ≡ none) ↔ ((height n + d ≤ max_ast_depth + 1) × IsMeaningful n)
  unfolding validate
  validate_iff (or_node l r) d =
      validate_both nested_too_deep (validate l (d + 1)) (validate r (d + 1)) (height l) (height r)
        d (IsMeaningful l) (IsMeaningful r) (validate_iff l (d + 1)) (validate_iff r (d + 1))
  validate_iff (and_node l r) d =
      validate_both nested_too_deep (validate l (d + 1)) (validate r (d + 1)) (height l) (height r)
        d (IsMeaningful l) (IsMeaningful r) (validate_iff l (d + 1)) (validate_iff r (d + 1))
  validate_iff (not_node n) d = (
    λ h.
        let below =
          (validate_iff n (d + 1)).0 ((guard_iff d nested_too_deep (validate n (d + 1))).0 h).1 in
        (omega arith, below.1),
    λ h.
        (guard_iff d nested_too_deep (validate n (d + 1))).1
          (omega arith, (validate_iff n (d + 1)).1 (omega arith, h.1)),
  )
  validate_iff (cmp_node ident op v) d = (
    λ h. ground (arith, check_compare_iff op v.kind),
    λ h. ground (arith, check_compare_iff op v.kind),
  )
  validate_iff (between_node ident lo hi negated) d = (
    λ h. ground (arith, check_bounds_iff lo.kind hi.kind),
    λ h. ground (arith, check_bounds_iff lo.kind hi.kind),
  )
  validate_iff (in_node ident vals negated) d =
      (λ h. ground (arith, check_list_iff vals), λ h. ground (arith, check_list_iff vals))
  validate_iff (is_null_node ident negated) d = (λ h. ground arith, λ h. ground arith)

module _ {F : Type 0} (numbers : Numbers F) where
  built-inj : {m n : Node F} → built m ≡ built n → m ≡ n
  built-inj e = cc

  abbrev IsValid : Node F → Type 0
  IsValid n = (height n ≤ max_ast_depth) × IsMeaningful n

  validate_root : (n : Node F) → (validate n 1 ≡ none) ↔ IsValid n
  validate_root n = (
    λ h. let both = (validate_iff n 1).0 h in (omega arith, both.1),
    λ h. (validate_iff n 1).1 (omega arith, h.1),
  )

  validated_iff :
      (b : Built F) (n : Node F) → (validated numbers b ≡ built n) ↔ ((b ≡ built n) × IsValid n)
  unfolding validated
  validated_iff (built m) n = elim (Option-cases (validate m 1)) [
    | inl z ↦
        rw (z, validated) (λ h. (h, subst IsValid (built-inj h) ((validate_root m).0 z)), λ h. h.0)
    | inr (x, e) ↦
        rw (e, validated)
          (
            λ h. cc,
            λ h.
                let none' = (validate_root m).1 (subst IsValid (sym (built-inj h.0)) h.1) in
                absurd (none≢some (sym none' ∙ e)),
          )
  ]
  validated_iff too_long n = (λ h. cc, λ h. cc (h.0))
  validated_iff (lex_fails col x) n = (λ h. cc, λ h. cc (h.0))
  validated_iff (parse_fails at x) n = (λ h. cc, λ h. cc (h.0))
  validated_iff (invalid x) n = (λ h. cc, λ h. cc (h.0))
  validated_iff out_of_fuel n = (λ h. cc, λ h. cc (h.0))

  -- A text gives the filter of a tree exactly when it is at most 1024 bytes long, it is parsed to
  -- this tree, the tree is at most 16 nodes high, and every leaf of it has a meaning: an operator
  -- that orders stands with a number only, nothing is compared with NULL, the bounds of a BETWEEN
  -- are numbers, and an IN has at most 64 constants, of one kind, which is not NULL.
  pub build_sql_filter-built :
      (expr : List ℕ) (n : Node F)
      → (build_sql_filter numbers expr ≡ built n) ↔ (
          (length expr ≤ max_expr_bytes)
          × (parse_sql92 numbers (lex (is_float numbers) expr) ≡ built n)
          × (height n ≤ max_ast_depth)
          × IsMeaningful n)
  unfolding build_sql_filter
  build_sql_filter-built expr n =
      let parsed = parse_sql92 numbers (lex (is_float numbers) expr) in
      elim (Bool-cases (ltb max_expr_bytes (length expr))) [
        | inl long ↦ rw long (λ h. cc, λ h. absurd (ground arith))
        | inr short ↦
            let fits : length expr ≤ max_expr_bytes = ground arith in
            rw short (
              λ h. let v = (validated_iff parsed n).0 h in (fits, v.0, v.1.0, v.1.1),
              λ h. (validated_iff parsed n).1 (h.1, (h.2, h.3)),
            )
      ]
