-- ===== src/Filter/Sql.antt =====
-- The nodes of internal/core/deliver/sql92_parse.go and their evaluation in sql92_eval.go. float64
-- and strconv.ParseFloat are a parameter.
use sq.Common.{
  ℕ, zero, suc, ◌+◌, ◌-◌, ◌*◌, ◌^◌, Bool, true, false, not, ◌&&◌, List, [], ◌∷◌, Option, none, some,
  ◌>>=◌, codes, bytes_eq, ltb, leb, ◌==◌, if◌then◌else◌, ℤ, pos, negsuc, ltb_ℤ, leb_ℤ, eqb_ℤ,
}
use sq.Message.{Message}
use sq.Filter.{Result, result_true, result_false, result_unknown}
use sq.Filter.Logic.{and3, or3, not3}

-- The comparisons of float64, each its own (a NaN fails all but `<>`), and ParseFloat.
pub record Floats (F : Type 0) : Type 0 where
  pub parse_float : List ℕ → Option F
  pub eqb : F → F → Bool
  pub ltb : F → F → Bool
  pub leb : F → F → Bool

-- The six operators that the lexer gives.
pub data Op : Type 0 where
  op_eq op_ne op_gt op_ge op_lt op_le : Op

pub data ConstKind : Type 0 where
  const_number const_string const_bool const_null : ConstKind

pub record Constant (F : Type 0) : Type 0 where
  pub kind : ConstKind
  pub str : List ℕ
  pub num : F
  pub i64 : ℤ
  pub is_int : Bool
  pub b : Bool

pub data Node (F : Type 0) : Type 0 where
  or_node and_node : Node F → Node F → Node F
  not_node : Node F → Node F
  cmp_node : List ℕ → Op → Constant F → Node F
  between_node : List ℕ → Constant F → Constant F → Bool → Node F
  in_node : List ℕ → List (Constant F) → Bool → Node F
  is_null_node : List ℕ → Bool → Node F

-- `m.Properties[ident]`.
unfoldable pub get_prop : List ℕ → List (List ℕ × List ℕ) → Option (List ℕ)
get_prop k [] = none
get_prop k ((j, v) ∷ props) = if bytes_eq j k then some v else get_prop k props

unfoldable pub lookup_prop : Message → List ℕ → Option (List ℕ)
lookup_prop m ident =
    if bytes_eq ident (codes "TAGS")
    then (if bytes_eq m.tag [] then none else some m.tag)
    else get_prop ident m.properties

-- strconv.ParseInt(s, 10, 64): a sign, then digits, within the range.
unfoldable pub parse_digits : ℕ → List ℕ → Option ℕ
parse_digits n [] = some n
parse_digits n (c ∷ s) =
    let rest = parse_digits (n * 10 + (c - b'0')) s in
    if leb b'0' c && leb c b'9' then rest else none

unfoldable pub parse_magnitude : List ℕ → Option ℕ
parse_magnitude [] = none
parse_magnitude (c ∷ s) = parse_digits 0 (c ∷ s)

abbrev pub negated_within : ℕ → Option ℤ
negated_within zero = some (pos 0)
negated_within (suc n) = if ltb n (2 ^ 63) then some (negsuc n) else none

abbrev pub pos_within : ℕ → Option ℤ
pos_within n = if ltb n (2 ^ 63) then some (pos n) else none

unfoldable pub parse_int : List ℕ → Option ℤ
parse_int [] = none
parse_int (c ∷ s) =
    if c == b'-'
    then (parse_magnitude s >>= negated_within)
    else if c == b'+'
    then (parse_magnitude s >>= pos_within)
    else (parse_magnitude (c ∷ s) >>= pos_within)

-- Each letter in lower case; U+017F (bytes 0xC5, 0xBF) folds to `s`. No other character outside ASCII folds to
-- a letter of `true` or `false`.
unfoldable pub fold_case : List ℕ → List ℕ
fold_case [] = []
fold_case (c ∷ []) = (if leb b'A' c && leb c b'Z' then c + 32 else c) ∷ []
fold_case (c ∷ d ∷ s) =
    let rest = fold_case (d ∷ s) in
    let later = fold_case s in
    if c == 0xC5 && d == 0xBF
    then b's' ∷ later
    else (if leb b'A' c && leb c b'Z' then c + 32 else c) ∷ rest

-- strings.EqualFold(prop, word) for a word in lower case.
unfoldable pub equal_fold : List ℕ → List ℕ → Bool
equal_fold prop word = bytes_eq (fold_case prop) word

abbrev pub decide : Bool → Result
decide true = result_true
decide false = result_false

unfoldable pub cmp_int : Op → ℤ → ℤ → Result
cmp_int op_eq l r = decide (eqb_ℤ l r)
cmp_int op_ne l r = decide (not (eqb_ℤ l r))
cmp_int op_gt l r = decide (ltb_ℤ r l)
cmp_int op_ge l r = decide (leb_ℤ r l)
cmp_int op_lt l r = decide (ltb_ℤ l r)
cmp_int op_le l r = decide (leb_ℤ l r)

abbrev bool_eq : Bool → Bool → Bool
bool_eq true b = b
bool_eq false b = not b

abbrev is_eq : Op → Bool
is_eq op_eq = true
is_eq op = false

-- The comparison of a property that reads as a Boolean.
unfoldable pub cmp_bool : Op → Bool → Bool → Result
cmp_bool op_eq b c = decide (bool_eq b c)
cmp_bool op_ne b c = decide (not (bool_eq b c))
cmp_bool op b c = result_unknown

unfoldable pub read_bool : List ℕ → Option Bool
read_bool prop =
    if equal_fold prop (codes "true")
    then some true
    else if equal_fold prop (codes "false")
    then some false
    else none

module _ {F : Type 0} (floats : Floats F) where
  unfoldable pub cmp_float : Op → F → F → Result
  cmp_float op_eq l r = decide (floats.eqb l r)
  cmp_float op_ne l r = decide (not (floats.eqb l r))
  cmp_float op_gt l r = decide (floats.ltb r l)
  cmp_float op_ge l r = decide (floats.leb r l)
  cmp_float op_lt l r = decide (floats.ltb l r)
  cmp_float op_le l r = decide (floats.leb l r)

  -- The float64 stage.
  unfoldable pub eval_float : Op → Constant F → List ℕ → Result
  eval_float op v prop = elim (floats.parse_float prop) [
    | none ↦ result_unknown
    | some p ↦ cmp_float op p v.num
  ]

  unfoldable pub eval_num_cmp : Op → Constant F → List ℕ → Result
  eval_num_cmp op v prop =
      if v.is_int
      then elim (parse_int prop) [ some p ↦ cmp_int op p v.i64 | none ↦ eval_float op v prop ]
      else eval_float op v prop

  unfoldable pub eval_const : ConstKind → Op → Constant F → List ℕ → Result
  eval_const const_string op v prop = decide (bool_eq (bytes_eq v.str prop) (is_eq op))
  eval_const const_bool op v prop = elim (read_bool prop) [
    | none ↦ result_unknown
    | some b ↦ cmp_bool op b v.b
  ]
  eval_const const_number op v prop = eval_num_cmp op v prop
  eval_const const_null op v prop = result_unknown

  unfoldable pub eval_cmp : List ℕ → Op → Constant F → Message → Result
  eval_cmp ident op v m = elim (lookup_prop m ident) [
    | none ↦ result_unknown
    | some prop ↦ eval_const v.kind op v prop
  ]

  abbrev pub negate_if : Bool → Result → Result
  negate_if negated r = if negated then not3 r else r

  -- The bounds of a BETWEEN on a property that is there.
  unfoldable pub eval_bounds : ConstKind → Constant F → Constant F → Bool → Option (List ℕ) → Result
  eval_bounds const_number lo hi negated none = result_unknown
  eval_bounds const_number lo hi negated (some prop) =
      negate_if negated (and3 (eval_num_cmp op_ge lo prop) (eval_num_cmp op_le hi prop))
  eval_bounds kind lo hi negated prop = result_unknown

  unfoldable pub eval_between : List ℕ → Constant F → Constant F → Bool → Message → Result
  eval_between ident lo hi negated m = eval_bounds lo.kind lo hi negated (lookup_prop m ident)

  -- The loop of evalIn, with `res` so far.
  unfoldable pub eval_in_loop : List ℕ → List (Constant F) → Message → Result → Result
  eval_in_loop ident [] m res = res
  eval_in_loop ident (v ∷ vals) m res =
      eval_in_loop ident vals m (or3 res (eval_cmp ident op_eq v m))

  abbrev pub present_prop : Option (List ℕ) → Result
  present_prop none = result_true
  present_prop (some v) = result_false

  unfoldable pub eval_node : Node F → Message → Result
  eval_node (or_node l r) m = or3 (eval_node l m) (eval_node r m)
  eval_node (and_node l r) m = and3 (eval_node l m) (eval_node r m)
  eval_node (not_node n) m = not3 (eval_node n m)
  eval_node (cmp_node ident op v) m = eval_cmp ident op v m
  eval_node (between_node ident lo hi negated) m = eval_between ident lo hi negated m
  eval_node (in_node ident vals negated) m =
      negate_if negated (eval_in_loop ident vals m result_false)
  eval_node (is_null_node ident negated) m = negate_if negated (present_prop (lookup_prop m ident))
