-- ===== src/Filter/Lexer.antt =====
-- internal/core/deliver/sql92_token.go: the tokens of an SQL92 filter expression. Of strconv only
-- ParseFloat is asked, whether a text is a number, and it is a parameter.
use sq.Common.{
  ℕ, zero, suc, ◌+◌, ◌-◌, Bool, ◌&&◌, ◌||◌, List, [], ◌∷◌, Option, none, some, leb, ◌==◌,
  if◌then◌else◌, codes, bytes_eq, length,
}
use sq.Filter.Sql.{Op, op_eq, op_ne, op_gt, op_ge, op_lt, op_le}

pub data Keyword : Type 0 where
  kw_and kw_or kw_not kw_between kw_in kw_is kw_null kw_true kw_false : Keyword

-- tokenKind, each kind with its text.
pub data TokenKind : Type 0 where
  tok_eof : TokenKind
  tok_ident tok_number tok_string : List ℕ → TokenKind
  tok_keyword : Keyword → TokenKind
  tok_op : Op → TokenKind
  tok_lparen tok_rparen tok_comma : TokenKind

-- A column counts from 1.
pub record Token : Type 0 where
  pub kind : TokenKind
  pub col : ℕ

pub data LexError : Type 0 where
  bad_number not_closed not_equals_sign bad_character : LexError

pub data Lexed : Type 0 where
  lexed : List Token → Lexed
  lex_error : ℕ → LexError → Lexed
  unfinished : Lexed

-- What one turn of the loop does: an error at a column, white space, or a token; then the bytes
-- that are left and the index of the first of them.
pub data Turn : Type 0 where
  turn_error : ℕ → LexError → Turn
  blank : ℕ → List ℕ → Turn
  token : Token → ℕ → List ℕ → Turn

abbrev pub is_digit : ℕ → Bool
is_digit c = leb b'0' c && leb c b'9'

unfoldable pub is_ident_start : ℕ → Bool
is_ident_start c = c == b'_' || leb b'a' c && leb c b'z' || leb b'A' c && leb c b'Z'

unfoldable pub is_ident_part : ℕ → Bool
is_ident_part c = is_ident_start c || is_digit c

abbrev pub is_number_part : ℕ → Bool
is_number_part c = is_digit c || c == b'.'

-- The bytes of a run, and what follows it.
unfoldable pub span : (ℕ → Bool) → List ℕ → List ℕ × List ℕ
span p [] = ([], [])
span p (c ∷ s) = let (run, rest) = span p s in if p c then (c ∷ run, rest) else ([], c ∷ s)

-- strings.ToUpper on an identifier.
unfoldable pub to_upper : List ℕ → List ℕ
to_upper [] = []
to_upper (c ∷ s) = (if leb b'a' c && leb c b'z' then c - 32 else c) ∷ to_upper s

-- The table `keywords`.
unfoldable pub keyword_of : List ℕ → Option Keyword
keyword_of s =
    if bytes_eq s (codes "AND")
    then some kw_and
    else if bytes_eq s (codes "OR")
    then some kw_or
    else if bytes_eq s (codes "NOT")
    then some kw_not
    else if bytes_eq s (codes "BETWEEN")
    then some kw_between
    else if bytes_eq s (codes "IN")
    then some kw_in
    else if bytes_eq s (codes "IS")
    then some kw_is
    else if bytes_eq s (codes "NULL")
    then some kw_null
    else if bytes_eq s (codes "TRUE")
    then some kw_true
    else if bytes_eq s (codes "FALSE")
    then some kw_false
    else none

unfoldable pub word : List ℕ → TokenKind
word text = elim (keyword_of (to_upper text)) [ some k ↦ tok_keyword k | none ↦ tok_ident text ]

-- `<`, `>` and what may follow them; how many bytes the operator takes.
unfoldable pub angle : ℕ → List ℕ → Op × ℕ
angle c [] = (if c == b'<' then op_lt else op_gt, 1)
angle c (d ∷ s) =
    if d == b'='
    then (if c == b'<' then op_le else op_ge, 2)
    else if c == b'<' && d == b'>'
    then (op_ne, 2)
    else (if c == b'<' then op_lt else op_gt, 1)

unfoldable pub tail : List ℕ → List ℕ
tail [] = []
tail (c ∷ s) = s

-- A byte of a string constant that n bytes of the source give, before the others.
abbrev pub before : ℕ → ℕ → Option (List ℕ × ℕ × List ℕ) → Option (List ℕ × ℕ × List ℕ)
before c n none = none
before c n (some (t, k, rest)) = some (c ∷ t, k + n, rest)

-- The inside of a string constant, from behind its first quote: the text, how many bytes it takes
-- with its last quote, and what follows; `none` when it is not closed.
unfoldable pub quoted : List ℕ → Option (List ℕ × ℕ × List ℕ)
quoted [] = none
quoted (c ∷ []) = if c == b'\'' then some ([], 1, []) else none
quoted (c ∷ d ∷ s) =
    let doubled = before b'\'' 2 (quoted s) in
    let plain = before c 1 (quoted (d ∷ s)) in
    if c == b'\'' then (if d == b'\'' then doubled else some ([], 1, d ∷ s)) else plain

module _ (is_float : List ℕ → Bool) where
  -- A number from index i on, with its text and what follows it.
  unfoldable pub number : ℕ → List ℕ → List ℕ → Turn
  number i text rest =
      if is_float text
      then token (record { kind = tok_number text; col = i + 1 }) (i + length text) rest
      else turn_error (i + 1) bad_number

  unfoldable pub minus : ℕ → List ℕ → Turn
  minus i [] = turn_error (i + 1) bad_character
  minus i (d ∷ s) =
      let (run, rest) = span is_number_part (d ∷ s) in
      if is_digit d then number i (b'-' ∷ run) rest else turn_error (i + 1) bad_character

  unfoldable pub bang : ℕ → List ℕ → Turn
  bang i [] = turn_error (i + 1) bad_character
  bang i (d ∷ s) =
      if d == b'=' then turn_error (i + 1) not_equals_sign else turn_error (i + 1) bad_character

  unfoldable pub string_token : ℕ → Option (List ℕ × ℕ × List ℕ) → Turn
  string_token i none = turn_error (i + 1) not_closed
  string_token i (some (t, n, rest)) =
      token (record { kind = tok_string t; col = i + 1 }) (i + 1 + n) rest

  -- A turn at a byte that may begin a token of several bytes, or none.
  unfoldable pub long_turn : ℕ → ℕ → List ℕ → Turn
  long_turn i c s =
      if c == b'<' || c == b'>'
      then (let (op, n) = angle c s in
          token (record { kind = tok_op op; col = i + 1 }) (i + n) (if n == 2 then tail s else s))
      else if c == b'-'
      then minus i s
      else if is_digit c
      then (let (run, rest) = span is_number_part s in number i (c ∷ run) rest)
      else if c == b'\''
      then string_token i (quoted s)
      else if is_ident_start c
      then (let (run, rest) = span is_ident_part s in
          token (record { kind = word (c ∷ run); col = i + 1 }) (i + suc (length run)) rest)
      else if c == b'!'
      then bang i s
      else turn_error (i + 1) bad_character

  -- One turn of the loop of lex at the byte c, index i, with s behind it.
  unfoldable pub turn : ℕ → ℕ → List ℕ → Turn
  turn i c s =
      if c == b' ' || c == b'\t' || c == b'\n' || c == b'\r'
      then blank (i + 1) s
      else if c == b'('
      then token (record { kind = tok_lparen; col = i + 1 }) (i + 1) s
      else if c == b')'
      then token (record { kind = tok_rparen; col = i + 1 }) (i + 1) s
      else if c == b','
      then token (record { kind = tok_comma; col = i + 1 }) (i + 1) s
      else if c == b'='
      then token (record { kind = tok_op op_eq; col = i + 1 }) (i + 1) s
      else long_turn i c s

  abbrev pub emit : Token → Lexed → Lexed
  emit t (lexed ts) = lexed (t ∷ ts)
  emit t (lex_error col e) = lex_error col e
  emit t unfinished = unfinished

  -- The loop, with fuel for its turns.
  unfoldable pub lex_from : ℕ → ℕ → List ℕ → Lexed
  lex_from fuel i [] = lexed (record { kind = tok_eof; col = i + 1 } ∷ [])
  lex_from zero i (c ∷ s) = unfinished
  lex_from (suc fuel) i (c ∷ s) = elim (turn i c s) [
    | turn_error col e ↦ lex_error col e
    | blank j rest ↦ lex_from fuel j rest
    | token t j rest ↦ emit t (lex_from fuel j rest)
  ]

  unfoldable pub lex : List ℕ → Lexed
  lex expr = lex_from (length expr) 0 expr
