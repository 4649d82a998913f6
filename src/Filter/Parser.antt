-- ===== src/Filter/Parser.antt =====
-- The recursive descent of internal/core/deliver/sql92_parse.go over the tokens. The parser's depth
-- counts up to max_ast_depth and is what its recursion goes down by here: `inner` is parseOr one
-- parenthesis deeper, or none where the depth is used up.
use sq.Common.{
  ℕ, zero, suc, ◌+◌, Bool, true, false, List, [], ◌∷◌, ◌++◌, Option, none, some, if◌then◌else◌,
  length, ℤ, pos,
}
use sq.Filter.Sql.{
  Constant, Node, Op, and_node, between_node, cmp_node, const_bool, const_null, const_number,
  const_string, in_node, is_null_node, not_node, op_eq, op_ge, op_gt, op_le, op_lt, op_ne, or_node,
  parse_int,
}
use sq.Filter.Lexer.{
  Keyword, Token, TokenKind, kw_and, kw_between, kw_false, kw_in, kw_is, kw_not, kw_null, kw_or,
  kw_true, tok_comma, tok_eof, tok_ident, tok_keyword, tok_lparen, tok_number, tok_op, tok_rparen,
  tok_string,
}

abbrev pub max_ast_depth : ℕ
max_ast_depth = 16

-- The token at the parser's position and those behind it.
pub record Cursor : Type 0 where
  pub cur : Token
  pub rest : List Token

-- next: it stays at the last token.
unfoldable pub next : Cursor → Cursor
next c = elim c.rest [ [] ↦ c | t ∷ ts ↦ record { cur = t; rest = ts } ]

-- What an error says was expected.
pub data Reason : Type 0 where
  expects_end too_deep expects_rparen expects_predicate both_idents expects_operator : Reason
  expects_null expects_in_between expects_and expects_lparen empty_in expects_comma : Reason
  needs_ident ident_on_left expects_compare expects_constant illegal_number : Reason

-- A value; an error with the token whose column it names; or the fuel of a loop is used up.
pub data Parsed (A : Type 0) : Type 0 where
  ok : A → Parsed A
  err : Token → Reason → Parsed A
  stuck : Parsed A

infixl 5 ◌>>=◌
abbrev pub ◌>>=◌ : {A B : Type 0} → Parsed A → (A → Parsed B) → Parsed B
ok a >>= f = f a
err t r >>= f = err t r
stuck >>= f = stuck

unfoldable pub flip_op : Op → Op
flip_op op_lt = op_gt
flip_op op_gt = op_lt
flip_op op_le = op_ge
flip_op op_ge = op_le
flip_op op_eq = op_eq
flip_op op_ne = op_ne

-- strconv.ParseFloat, and the conversion of an int64 to float64.
pub record Numbers (F : Type 0) : Type 0 where
  pub parse_float : List ℕ → Option F
  pub of_int : ℤ → F

module _ {F : Type 0} (numbers : Numbers F) where
  abbrev zero_constant : Constant F
  zero_constant = record {
    kind = const_null;
    str = [];
    num = numbers.of_int (pos 0);
    i64 = pos 0;
    is_int = false;
    b = false;
  }

  unfoldable pub int_constant : ℤ → Constant F
  int_constant i = record zero_constant {
    kind = const_number;
    num = numbers.of_int i;
    i64 = i;
    is_int = true;
  }

  unfoldable pub float_constant : F → Constant F
  float_constant f = record zero_constant { kind = const_number; num = f }

  unfoldable pub string_constant : List ℕ → Constant F
  string_constant s = record zero_constant { kind = const_string; str = s }

  unfoldable pub bool_constant : Bool → Constant F
  bool_constant b = record zero_constant { kind = const_bool; b = b }

  unfoldable pub null_constant : Constant F
  null_constant = zero_constant

  -- A numeric token: an int64, or else a float64.
  unfoldable pub number_constant : List ℕ → Option (Constant F)
  number_constant text = elim (parse_int text) [
    | some i ↦ some (int_constant i)
    | none ↦ elim (numbers.parse_float text) [ some f ↦ some (float_constant f) | none ↦ none ]
  ]

  unfoldable pub constant_of : Cursor → TokenKind → Parsed (Constant F × Cursor)
  constant_of c (tok_number text) = elim (number_constant text) [
    | some k ↦ ok (k, next c)
    | none ↦ err c.cur illegal_number
  ]
  constant_of c (tok_string s) = ok (string_constant s, next c)
  constant_of c (tok_keyword kw_true) = ok (bool_constant true, next c)
  constant_of c (tok_keyword kw_false) = ok (bool_constant false, next c)
  constant_of c (tok_keyword kw_null) = ok (null_constant, next c)
  constant_of c k = err c.cur expects_constant

  unfoldable pub parse_constant : Cursor → Parsed (Constant F × Cursor)
  parse_constant c = constant_of c c.cur.kind

  abbrev pub is_keyword : Keyword → TokenKind → Bool
  is_keyword kw_and (tok_keyword kw_and) = true
  is_keyword kw_or (tok_keyword kw_or) = true
  is_keyword kw_not (tok_keyword kw_not) = true
  is_keyword kw_null (tok_keyword kw_null) = true
  is_keyword k t = false

  -- parseIsNull, behind IS and an optional NOT.
  unfoldable pub expect_null : List ℕ → Bool → Cursor → Parsed (Node F × Cursor)
  expect_null ident negated c =
      if is_keyword kw_null c.cur.kind
      then ok (is_null_node ident negated, next c)
      else err c.cur expects_null

  unfoldable pub parse_is_null : List ℕ → Cursor → Parsed (Node F × Cursor)
  parse_is_null ident c =
      let c' = next c in
      if is_keyword kw_not c'.cur.kind
      then expect_null ident true (next c')
      else expect_null ident false c'

  unfoldable pub parse_between : List ℕ → Bool → Cursor → Parsed (Node F × Cursor)
  parse_between ident negated c = parse_constant c >>= λ (lo, c1).
      (if is_keyword kw_and c1.cur.kind
        then (parse_constant (next c1) >>= λ (hi, c2). ok (between_node ident lo hi negated, c2))
        else err c1.cur expects_and)

  -- What follows an element of an IN list.
  unfoldable pub in_after :
      TokenKind → (Cursor → Parsed (Node F × Cursor)) → Node F → Cursor → Parsed (Node F × Cursor)
  in_after tok_comma again n c = again (next c)
  in_after tok_rparen again n c = ok (n, next c)
  in_after k again n c = err c.cur expects_comma

  -- The loop of parseIn, with the constants so far.
  unfoldable pub in_loop : ℕ → List ℕ → Bool → List (Constant F) → Cursor → Parsed (Node F × Cursor)
  in_loop zero ident negated vals c = stuck
  in_loop (suc fuel) ident negated vals c = parse_constant c >>= λ (v, c').
      in_after c'.cur.kind (in_loop fuel ident negated (vals ++ (v ∷ [])))
        (in_node ident (vals ++ (v ∷ [])) negated) c'

  abbrev pub is_rparen : TokenKind → Bool
  is_rparen tok_rparen = true
  is_rparen k = false

  abbrev pub is_lparen : TokenKind → Bool
  is_lparen tok_lparen = true
  is_lparen k = false

  unfoldable pub parse_in : List ℕ → Bool → Cursor → Parsed (Node F × Cursor)
  parse_in ident negated c =
      let c' = next c in
      if is_lparen c.cur.kind
      then (if is_rparen c'.cur.kind
          then err c'.cur empty_in
          else in_loop (length c'.rest + 2) ident negated [] c')
      else err c.cur expects_lparen

  unfoldable pub after_not : List ℕ → Cursor → TokenKind → Parsed (Node F × Cursor)
  after_not ident c (tok_keyword kw_in) = parse_in ident true (next c)
  after_not ident c (tok_keyword kw_between) = parse_between ident true (next c)
  after_not ident c k = err c.cur expects_in_between

  -- The comparison of an attribute, behind its operator.
  unfoldable pub compare_with : List ℕ → Op → Cursor → TokenKind → Parsed (Node F × Cursor)
  compare_with ident op c (tok_ident other) = err c.cur both_idents
  compare_with ident op c k = parse_constant c >>= λ (v, c'). ok (cmp_node ident op v, c')

  -- parseIdentForm, by the kind of the token behind the attribute.
  unfoldable pub ident_form : List ℕ → Cursor → TokenKind → Parsed (Node F × Cursor)
  ident_form ident c (tok_op op) = compare_with ident op (next c) (next c).cur.kind
  ident_form ident c (tok_keyword kw_is) = parse_is_null ident c
  ident_form ident c (tok_keyword kw_not) = after_not ident (next c) (next c).cur.kind
  ident_form ident c (tok_keyword kw_between) = parse_between ident false (next c)
  ident_form ident c (tok_keyword kw_in) = parse_in ident false (next c)
  ident_form ident c k = err c.cur expects_operator

  -- parseConstLeft, behind its operator: the attribute comes last.
  unfoldable pub const_compare : Constant F → Op → Cursor → TokenKind → Parsed (Node F × Cursor)
  const_compare v op c (tok_ident ident) = ok (cmp_node ident (flip_op op) v, next c)
  const_compare v op c k = err c.cur needs_ident

  unfoldable pub const_left : Constant F → Cursor → TokenKind → Parsed (Node F × Cursor)
  const_left v c (tok_op op) = const_compare v op (next c) (next c).cur.kind
  const_left v c (tok_keyword kw_is) = err c.cur ident_on_left
  const_left v c (tok_keyword kw_between) = err c.cur ident_on_left
  const_left v c (tok_keyword kw_in) = err c.cur ident_on_left
  const_left v c k = err c.cur expects_compare

  unfoldable pub parse_const_left : Cursor → Parsed (Node F × Cursor)
  parse_const_left c = parse_constant c >>= λ (v, c'). const_left v c' c'.cur.kind

  -- The closing parenthesis.
  unfoldable pub close : Node F × Cursor → Parsed (Node F × Cursor)
  close (n, c) = if is_rparen c.cur.kind then ok (n, next c) else err c.cur expects_rparen

  unfoldable pub primary_of :
      Option (Cursor → Parsed (Node F × Cursor)) → Cursor → TokenKind → Parsed (Node F × Cursor)
  primary_of none c tok_lparen = err c.cur too_deep
  primary_of (some inner) c tok_lparen = inner (next c) >>= close
  primary_of inner c (tok_ident ident) = ident_form ident (next c) (next c).cur.kind
  primary_of inner c (tok_number text) = parse_const_left c
  primary_of inner c (tok_string text) = parse_const_left c
  primary_of inner c (tok_keyword kw_true) = parse_const_left c
  primary_of inner c (tok_keyword kw_false) = parse_const_left c
  primary_of inner c k = err c.cur expects_predicate

  module _ (inner : Option (Cursor → Parsed (Node F × Cursor))) where
    unfoldable pub parse_primary : Cursor → Parsed (Node F × Cursor)
    parse_primary c = primary_of inner c c.cur.kind

    unfoldable pub parse_not : Cursor → Parsed (Node F × Cursor)
    parse_not c =
        if is_keyword kw_not c.cur.kind
        then (parse_primary (next c) >>= λ (n, c'). ok (not_node n, c'))
        else parse_primary c

    unfoldable pub and_loop : ℕ → Node F × Cursor → Parsed (Node F × Cursor)
    and_loop zero (left, c) = stuck
    and_loop (suc fuel) (left, c) =
        let more = parse_not (next c) >>= λ (right, c'). and_loop fuel (and_node left right, c') in
        if is_keyword kw_and c.cur.kind then more else ok (left, c)

    unfoldable pub parse_and : Cursor → Parsed (Node F × Cursor)
    parse_and c = parse_not c >>= λ (n, c'). and_loop (suc (length c'.rest)) (n, c')

    unfoldable pub or_loop : ℕ → Node F × Cursor → Parsed (Node F × Cursor)
    or_loop zero (left, c) = stuck
    or_loop (suc fuel) (left, c) =
        let more = parse_and (next c) >>= λ (right, c'). or_loop fuel (or_node left right, c') in
        if is_keyword kw_or c.cur.kind then more else ok (left, c)

    unfoldable pub or_level : Cursor → Parsed (Node F × Cursor)
    or_level c = parse_and c >>= λ (n, c'). or_loop (suc (length c'.rest)) (n, c')

  -- parseOr with so many parentheses left to open.
  unfoldable pub parse_or : ℕ → Cursor → Parsed (Node F × Cursor)
  parse_or zero = or_level none
  parse_or (suc left) = or_level (some (parse_or left))

  -- The end of parseSQL92.
  unfoldable pub at_end : Node F → Cursor → TokenKind → Parsed (Node F)
  at_end n c tok_eof = ok n
  at_end n c k = err c.cur expects_end

  unfoldable pub parse_tokens : Cursor → Parsed (Node F)
  parse_tokens c = parse_or max_ast_depth c >>= λ (n, c'). at_end n c' c'.cur.kind
