-- ===== src/Filter/Build.antt =====
-- buildSQLFilter of internal/core/deliver/sql92_parse.go: the limit on the length, the parse, and
-- the checks of validate on the tree.
use sq.Common.{
  ℕ, ◌+◌, Bool, true, false, not, ◌||◌, List, [], ◌∷◌, Option, none, some, ltb, if◌then◌else◌,
  length,
}
use sq.Filter.Sql.{
  ConstKind, Constant, Node, Op, and_node, between_node, cmp_node, const_bool, const_null,
  const_number, const_string, in_node, is_null_node, not_node, op_eq, op_ne, or_node,
}
use sq.Filter.Lexer.{LexError, Lexed, Token, lex, lex_error, lexed, unfinished}
use sq.Filter.Parser.{Numbers, Reason, err, max_ast_depth, ok, parse_tokens, stuck}

abbrev pub max_expr_bytes : ℕ
max_expr_bytes = 1024

abbrev pub max_in_elems : ℕ
max_in_elems = 64

pub data Invalid : Type 0 where
  nested_too_deep order_on_string equals_null order_on_bool too_many_elems : Invalid
  mixed_kinds null_in_list mixed_bounds bounds_not_numbers : Invalid

abbrev pub is_order : Op → Bool
is_order op_eq = false
is_order op_ne = false
is_order op = true

abbrev pub same_kind : ConstKind → ConstKind → Bool
same_kind const_number const_number = true
same_kind const_string const_string = true
same_kind const_bool const_bool = true
same_kind const_null const_null = true
same_kind a b = false

-- The checks of a comparison, in their order.
unfoldable pub check_compare : Op → ConstKind → Option Invalid
check_compare op const_string = if is_order op then some order_on_string else none
check_compare op const_null = some equals_null
check_compare op const_bool = if is_order op then some order_on_bool else none
check_compare op const_number = none

unfoldable pub check_bounds : ConstKind → ConstKind → Option Invalid
check_bounds lo hi =
    if not (same_kind lo hi)
    then some mixed_bounds
    else if not (same_kind lo const_number)
    then some bounds_not_numbers
    else none

abbrev pub both : Option Invalid → Option Invalid → Option Invalid
both (some e) o = some e
both none o = o

module _ {F : Type 0} where
  -- Two loops of validate over the elements of a list.
  unfoldable pub mixed : ConstKind → List (Constant F) → Bool
  mixed kind [] = false
  mixed kind (v ∷ vals) = not (same_kind v.kind kind) || mixed kind vals

  unfoldable pub has_null : List (Constant F) → Bool
  has_null [] = false
  has_null (v ∷ vals) = same_kind v.kind const_null || has_null vals

  unfoldable pub mixed_list : List (Constant F) → Bool
  mixed_list [] = false
  mixed_list (v ∷ vals) = mixed v.kind vals

  unfoldable pub check_list : List (Constant F) → Option Invalid
  check_list vals =
      if ltb max_in_elems (length vals)
      then some too_many_elems
      else if mixed_list vals
      then some mixed_kinds
      else if has_null vals
      then some null_in_list
      else none

  -- `none` is no error.
  unfoldable pub validate : Node F → ℕ → Option Invalid
  validate (or_node l r) depth =
      let below = both (validate l (depth + 1)) (validate r (depth + 1)) in
      if ltb max_ast_depth depth then some nested_too_deep else below
  validate (and_node l r) depth =
      let below = both (validate l (depth + 1)) (validate r (depth + 1)) in
      if ltb max_ast_depth depth then some nested_too_deep else below
  validate (not_node n) depth =
      let below = validate n (depth + 1) in
      if ltb max_ast_depth depth then some nested_too_deep else below
  validate (cmp_node ident op v) depth =
      if ltb max_ast_depth depth then some nested_too_deep else check_compare op v.kind
  validate (between_node ident lo hi negated) depth =
      if ltb max_ast_depth depth then some nested_too_deep else check_bounds lo.kind hi.kind
  validate (in_node ident vals negated) depth =
      if ltb max_ast_depth depth then some nested_too_deep else check_list vals
  validate (is_null_node ident negated) depth =
      if ltb max_ast_depth depth then some nested_too_deep else none

-- What buildSQLFilter returns: the tree, or the error of one of its steps. No text leads to
-- out_of_fuel.
pub data Built (F : Type 0) : Type 0 where
  built : Node F → Built F
  too_long : Built F
  lex_fails : ℕ → LexError → Built F
  parse_fails : Token → Reason → Built F
  invalid : Invalid → Built F
  out_of_fuel : Built F

module _ {F : Type 0} (numbers : Numbers F) where
  abbrev pub is_float : List ℕ → Bool
  is_float text = elim (numbers.parse_float text) [ none ↦ false | some f ↦ true ]

  -- parseSQL92; a token list of the lexer is never empty.
  unfoldable pub parse_sql92 : Lexed → Built F
  parse_sql92 unfinished = out_of_fuel
  parse_sql92 (lex_error col e) = lex_fails col e
  parse_sql92 (lexed []) = out_of_fuel
  parse_sql92 (lexed (t ∷ ts)) = elim (parse_tokens numbers (record { cur = t; rest = ts })) [
    | ok n ↦ built n
    | err at e ↦ parse_fails at e
    | stuck ↦ out_of_fuel
  ]

  unfoldable pub validated : Built F → Built F
  validated (built n) = elim (validate n 1) [ none ↦ built n | some e ↦ invalid e ]
  validated too_long = too_long
  validated (lex_fails col e) = lex_fails col e
  validated (parse_fails at e) = parse_fails at e
  validated (invalid e) = invalid e
  validated out_of_fuel = out_of_fuel

  unfoldable pub build_sql_filter : List ℕ → Built F
  build_sql_filter expr =
      if ltb max_expr_bytes (length expr)
      then too_long
      else validated (parse_sql92 (lex is_float expr))
