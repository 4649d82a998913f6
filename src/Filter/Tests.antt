-- ===== src/Filter/Tests.antt =====
-- The SQL92 properties at small expressions. The floats here are whole numbers.
use sq.Common.{
  map, if◌then◌else◌, ℕ, ◌≡◌, refl, arith, true, false, List, [], ◌∷◌, none, some, codes, ltb, leb,
  ◌==◌, pos, negsuc, bytes_eq, ◌≢◌, ◌↔◌, ◌≤◌, length,
}
use sq.Message.{Message}
use sq.Filter.Sql.{
  const_string, const_bool, const_null, Floats, Constant, const_number, Node, or_node, not_node,
  cmp_node, between_node, in_node, op_gt, op_ge, parse_int, parse_magnitude, parse_digits,
  eval_node, lookup_prop, get_prop,
}
use sq.Filter.Lexer.{
  TokenKind, tok_string, tok_number, tok_keyword, kw_true, kw_null, lex, lex_from, turn, long_turn,
  string_token, quoted, angle, number, span, word, keyword_of, to_upper, is_ident_start,
  is_ident_part, tail,
}
use sq.Filter.Parser.{
  ok, Numbers, int_constant, string_constant, parse_tokens, at_end, parse_or, or_level, or_loop,
  parse_and, and_loop, parse_not, parse_primary, primary_of, close, const_compare, const_left,
  parse_const_left, ident_form, compare_with, parse_in, in_loop, in_after, parse_constant,
  constant_of, number_constant, flip_op, next, max_ast_depth,
}
use sq.Filter.Build.{
  build_sql_filter, built, validated, validate, check_compare, check_list, mixed_list, mixed,
  has_null, parse_sql92, out_of_fuel, max_expr_bytes, is_float,
}
use sq.Filter.Printed.{parse_tokens-print, print, the_end}
use sq.Filter.{Filter, result_true, result_unknown}
use sq.Filter.Tags.{
  IsAmong, filter_tag, join_bars, parse_filter, parse_filter-join_bars, split_bars,
}
use sq.Filter.Turns.{build_sql_filter-ends}
use sq.Filter.Accepted.{IsMeaningful, build_sql_filter-built, height}
use sq.Filter.Laws.{between_expanded, eval_node-between}
use sq.Filter.Monotone.{Settles, null_free, eval_node-Settles}

abbrev whole : Floats ℕ
whole = record {
  parse_float = parse_digits 0;
  eqb = λ a b. a == b;
  ltb = λ a b. ltb a b;
  leb = λ a b. leb a b;
}

abbrev whole_number : ℕ → Constant ℕ
whole_number n = record {
  kind = const_number;
  str = [];
  num = n;
  i64 = pos n;
  is_int = true;
  b = false;
}

abbrev order : List (List ℕ × List ℕ) → Message
order properties = record {
  id = codes "id";
  topic = codes "orders";
  queue_id = 0;
  offset = 0;
  tag = codes "eu";
  keys = [];
  message_group = [];
  properties = properties;
  body = [];
  body_encoding = [];
  body_digest = none;
  born_at_ms = 0;
  born_host = [];
  store_at_ms = 0;
  deliver_at_ms = 0;
  trace_context = [];
  transactional = false;
  delivery_attempt = 0;
}

abbrev price : List ℕ
price = codes "price"

abbrev priced : Message
priced = order ((price, codes "42") ∷ [])

eval_node-between_example :
    eval_node whole (between_node price (whole_number 10) (whole_number 50) true) priced
    ≡ eval_node whole
        (between_expanded whole priced price (whole_number 10) (whole_number 50) true)
        priced
eval_node-between_example =
    eval_node-between whole priced price (whole_number 10) (whole_number 50) true refl refl

abbrev dear : Node ℕ
dear = cmp_node price op_gt (whole_number 40)

abbrev large : Node ℕ
large = cmp_node (codes "size") op_gt (whole_number 5)

abbrev sized : Message
sized = order ((price, codes "42") ∷ (codes "size", codes "3") ∷ [])

keeps_other :
    (ident v : List ℕ) → lookup_prop priced ident ≡ some v → lookup_prop sized ident ≡ some v
unfolding lookup_prop get_prop
keeps_other ident v h = ground arith

eval_node-Settles_example :
    Settles
      (eval_node whole (or_node dear (not_node large)) priced)
      (eval_node whole (or_node dear (not_node large)) sized)
unfolding null_free
eval_node-Settles_example =
    eval_node-Settles whole priced sized keeps_other (or_node dear (not_node large)) refl

abbrev numbers : Numbers ℕ
numbers = record { parse_float = parse_digits 0; of_int = λ i. elim i [ pos n ↦ n | negsuc n ↦ 0 ] }

-- `( "x1" , "x2" )` on the right, the constant on the left, and a NOT.
abbrev text : List ℕ
text = codes "not (10 <= age) OR city In ('x''1', 'x2')"

abbrev tree : Node ℕ
tree = or_node (not_node (cmp_node (codes "age") op_ge (int_constant numbers (pos 10)))) (
    in_node (codes "city")
      (string_constant numbers (codes "x'1") ∷ string_constant numbers (codes "x2") ∷ []) false)

build_run : build_sql_filter numbers text ≡ built tree
unfolding build_sql_filter validated validate check_compare check_list mixed_list mixed has_null
    parse_sql92 parse_tokens at_end parse_or or_level or_loop parse_and and_loop parse_not
    parse_primary primary_of close const_compare const_left parse_const_left ident_form compare_with
    parse_in in_loop in_after parse_constant constant_of number_constant int_constant
    string_constant flip_op next parse_int parse_magnitude parse_digits lex lex_from turn long_turn
    string_token quoted angle number span word keyword_of to_upper is_ident_start is_ident_part
    bytes_eq tail
build_run = refl

build_sql_filter-ends_example : build_sql_filter numbers text ≢ out_of_fuel
build_sql_filter-ends_example = build_sql_filter-ends numbers text

build_sql_filter-built_example : (build_sql_filter numbers text ≡ built tree) ↔ (
    (length text ≤ max_expr_bytes)
    × (parse_sql92 numbers (lex (is_float numbers) text) ≡ built tree)
    × (height tree ≤ max_ast_depth)
    × IsMeaningful tree)
build_sql_filter-built_example = build_sql_filter-built numbers text tree

-- The constants of the tree as tokens.
abbrev spell : Constant ℕ → TokenKind
spell v = elim v.kind [
  | const_string ↦ tok_string v.str
  | const_number ↦ tok_number (codes "10")
  | const_bool ↦ tok_keyword kw_true
  | const_null ↦ tok_keyword kw_null
]

parse_tokens-print_example :
    parse_tokens numbers (print numbers spell tree (the_end numbers spell)) ≡ ok tree
unfolding number_constant string_constant int_constant parse_int parse_magnitude parse_digits
parse_tokens-print_example =
    parse_tokens-print numbers spell tree (refl, (refl, (refl, tt))) (omega arith)

-- Blanks are taken off on the left.
abbrev trim_left : List ℕ → List ℕ
trim_left [] = []
trim_left (c ∷ s) = let rest = trim_left s in if c == 32 then rest else c ∷ s

abbrev regions : List (List ℕ)
regions = codes " us" ∷ []

parse_filter-join_bars_example :
    (f : Filter) × (parse_filter trim_left numbers whole filter_tag (join_bars (codes "eu") regions)
      ≡ some f)
    × ((m : Message)
        → (f.matches m ≡ result_true) ↔ IsAmong m.tag (map trim_left (codes "eu" ∷ regions)))
    × ((m : Message) → f.matches m ≢ result_unknown)
unfolding join_bars
parse_filter-join_bars_example =
    parse_filter-join_bars trim_left numbers whole (codes "eu") regions
      (
        ((λ e. omega arith), ((λ e. omega arith), tt)),
        (((λ e. omega arith), ((λ e. omega arith), ((λ e. omega arith), tt))), tt),
      )
      ((λ e. cc), ((λ e. cc), tt)) (λ e. cc) (λ e. cc)

split_run : split_bars (codes "a|||b") ≡ codes "a" ∷ codes "|b" ∷ []
unfolding split_bars
split_run = refl
