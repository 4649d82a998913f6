-- ===== src/Filter/Turns.antt =====
-- Building an SQL92 filter ends for every text: each turn of the lexer takes at least one byte, and
-- what the parser gets ends too.
use sq.Common.{
  ℕ, zero, suc, ◌≤◌, ◌≢◌, refl, arith, Bool, List, [], ◌∷◌, Option, none, some, if-elim, length,
  ltb, ◌==◌, ◌||◌, Option-cases, inl, inr,
}
use sq.Filter.Sql.{Node}
use sq.Filter.Lexer.{
  Lexed, Token, Turn, angle, before, bang, blank, emit, is_digit, is_ident_part, is_ident_start,
  is_number_part, lex, lex_error, lex_from, lexed, long_turn, minus, number, quoted, span,
  string_token, tail, token, turn, turn_error, unfinished,
}
use sq.Filter.Parser.{Numbers, Parsed, err, ok, parse_tokens, stuck}
use sq.Filter.Build.{
  Built, build_sql_filter, built, invalid, is_float, lex_fails, max_expr_bytes, out_of_fuel,
  parse_fails, parse_sql92, too_long, validate, validated,
}
use sq.Filter.Ending.{parse_tokens-ends}

-- A turn leaves at most n bytes.
abbrev TurnLeaves : ℕ → Turn → Type 0
TurnLeaves n (turn_error col e) = Unit {0}
TurnLeaves n (blank j rest) = length rest ≤ n
TurnLeaves n (token t j rest) = length rest ≤ n

span-le : (p : ℕ → Bool) (s : List ℕ) → length (span p s).1 ≤ length s
unfolding span
span-le p [] = omega arith
span-le p (c ∷ s) =
    if-elim (λ (r : List ℕ × List ℕ). length r.1 ≤ length (c ∷ s)) (p c) _ _
      (λ e. let low = span-le p s in omega arith) (λ e. omega arith)

abbrev QuoteLeaves : ℕ → Option (List ℕ × ℕ × List ℕ) → Type 0
QuoteLeaves n none = Unit {0}
QuoteLeaves n (some (t, k, rest)) = length rest ≤ n

before-leaves :
    (c k m n : ℕ) (o : Option (List ℕ × ℕ × List ℕ))
    → m ≤ n
    → QuoteLeaves m o
    → QuoteLeaves n (before c k o)
before-leaves c k m n none h q = tt
before-leaves c k m n (some (t, j, rest)) h q = omega arith

quoted-le : (s : List ℕ) → QuoteLeaves (length s) (quoted s)
unfolding quoted
quoted-le [] = tt
quoted-le (c ∷ []) = if-elim (QuoteLeaves 1) (c == b'\'') _ _ (λ e. omega arith) (λ e. tt)
quoted-le (c ∷ d ∷ s) =
    let n = suc (suc (length s)) in
    if-elim (QuoteLeaves n) (c == b'\'') _ _
      (λ e.
        if-elim (QuoteLeaves n) (d == b'\'') _ _
          (λ f. before-leaves b'\'' 2 (length s) n (quoted s) (omega arith) (quoted-le s))
          (λ f. omega arith))
      (λ e. before-leaves c 1 (suc (length s)) n (quoted (d ∷ s)) (omega arith) (quoted-le (d ∷ s)))

tail-le : (s : List ℕ) → length (tail s) ≤ length s
unfolding tail
tail-le [] = omega arith
tail-le (c ∷ s) = omega arith

module _ (is_float : List ℕ → Bool) where
  number-leaves :
      (i n : ℕ) (text rest : List ℕ) → length rest ≤ n → TurnLeaves n (number is_float i text rest)
  unfolding number
  number-leaves i n text rest h = if-elim (TurnLeaves n) (is_float text) _ _ (λ e. h) (λ e. tt)

  minus-leaves : (i : ℕ) (s : List ℕ) → TurnLeaves (length s) (minus is_float i s)
  unfolding minus
  minus-leaves i [] = tt
  minus-leaves i (d ∷ s) =
      let n = length (d ∷ s) in
      if-elim (TurnLeaves n) (is_digit d) _ _
        (λ e. number-leaves i n _ _ (span-le is_number_part (d ∷ s))) (λ e. tt)

  bang-leaves : (i : ℕ) (s : List ℕ) → TurnLeaves (length s) (bang is_float i s)
  unfolding bang
  bang-leaves i [] = tt
  bang-leaves i (d ∷ s) = if-elim (TurnLeaves (length (d ∷ s))) (d == b'=') _ _ (λ e. tt) (λ e. tt)

  string_token-leaves :
      (i n : ℕ) (o : Option (List ℕ × ℕ × List ℕ))
      → QuoteLeaves n o
      → TurnLeaves n (string_token is_float i o)
  unfolding string_token
  string_token-leaves i n none q = tt
  string_token-leaves i n (some (t, k, rest)) q = q

  long_turn-leaves : (i c : ℕ) (s : List ℕ) → TurnLeaves (length s) (long_turn is_float i c s)
  unfolding long_turn
  long_turn-leaves i c s =
      let L = TurnLeaves (length s) in
      if-elim L (c == b'<' || c == b'>') _ _
        (λ e.
          if-elim (λ (r : List ℕ). length r ≤ length s) ((angle c s).1 == 2) _ _ (λ f. tail-le s)
            (λ f. omega arith))
        (λ e.
          if-elim L (c == b'-') _ _ (λ f. minus-leaves i s)
            (λ f.
              if-elim L (is_digit c) _ _
                (λ g. number-leaves i (length s) _ _ (span-le is_number_part s))
                (λ g.
                  if-elim L (c == b'\'') _ _
                    (λ h. string_token-leaves i (length s) (quoted s) (quoted-le s))
                    (λ h.
                      if-elim L (is_ident_start c) _ _ (λ k. span-le is_ident_part s)
                        (λ k. if-elim L (c == b'!') _ _ (λ l. bang-leaves i s) (λ l. tt))))))

  turn-leaves : (i c : ℕ) (s : List ℕ) → TurnLeaves (length s) (turn is_float i c s)
  unfolding turn
  turn-leaves i c s =
      let L = TurnLeaves (length s) in
      let same : length s ≤ length s = omega arith in
      if-elim L (c == b' ' || c == b'\t' || c == b'\n' || c == b'\r') _ _ (λ e. same)
        (λ e.
          if-elim L (c == b'(') _ _ (λ e. same)
            (λ e.
              if-elim L (c == b')') _ _ (λ e. same)
                (λ e.
                  if-elim L (c == b',') _ _ (λ e. same)
                    (λ e. if-elim L (c == b'=') _ _ (λ e. same) (λ e. long_turn-leaves i c s)))))

  -- The lexer does not run out of fuel, and gives at least one token.
  abbrev IsLexed : Lexed → Type 0
  IsLexed (lexed []) = ⊥
  IsLexed (lexed (t ∷ ts)) = Unit {0}
  IsLexed (lex_error col e) = Unit {0}
  IsLexed unfinished = ⊥

  emit-IsLexed : (t : Token) (l : Lexed) → IsLexed l → IsLexed (emit is_float t l)
  emit-IsLexed t (lexed ts) h = tt
  emit-IsLexed t (lex_error col e) h = tt
  emit-IsLexed t unfinished h = absurd h

  lex_from-IsLexed :
      (fuel i : ℕ) (s : List ℕ) → length s ≤ fuel → IsLexed (lex_from is_float fuel i s)
  unfolding lex_from
  lex_from-IsLexed fuel i [] h = tt
  lex_from-IsLexed zero i (c ∷ s) h = absurd (omega arith)
  lex_from-IsLexed (suc fuel) i (c ∷ s) h =
      after (lex_from-IsLexed fuel) (turn is_float i c s) (turn-leaves i c s)
    where
      after :
          ((j : ℕ) (r : List ℕ) → length r ≤ fuel → IsLexed (lex_from is_float fuel j r))
          → (t : Turn) → TurnLeaves (length s) t
          → IsLexed (elim t as (λ z. Lexed) [
            | turn_error col e ↦ lex_error col e
            | blank j rest ↦ lex_from is_float fuel j rest
            | token k j rest ↦ emit is_float k (lex_from is_float fuel j rest)
          ])
      after ih (turn_error col e) l = tt
      after ih (blank j rest) l = ih j rest (omega arith)
      after ih (token k j rest) l =
          emit-IsLexed k (lex_from is_float fuel j rest) (ih j rest (omega arith))

module _ {F : Type 0} (numbers : Numbers F) where
  parse_sql92-ends :
      (l : Lexed) → IsLexed (is_float numbers) l → parse_sql92 numbers l ≢ out_of_fuel
  unfolding parse_sql92
  parse_sql92-ends unfinished h = λ e. h
  parse_sql92-ends (lex_error col x) h = λ e. cc
  parse_sql92-ends (lexed []) h = λ e. h
  parse_sql92-ends (lexed (t ∷ ts)) h =
      ends (parse_tokens numbers (record { cur = t; rest = ts }))
        (parse_tokens-ends numbers (record { cur = t; rest = ts }))
    where
      ends :
          (p : Parsed (Node F))
          → p ≢ stuck
          → (elim p as (λ z. Built F) [
            | ok n ↦ built n
            | err at x ↦ parse_fails at x
            | stuck ↦ out_of_fuel
          ])
            ≢ out_of_fuel
      ends (ok n) k e = cc
      ends (err at x) k e = cc
      ends stuck k e = k refl

  validated-ends : (b : Built F) → b ≢ out_of_fuel → validated numbers b ≢ out_of_fuel
  unfolding validated
  validated-ends (built n) h = elim (Option-cases (validate n 1)) [
    | inl z ↦ rw (z, validated) (λ e. cc)
    | inr (x, ex) ↦ rw (ex, validated) (λ e. cc)
  ]
  validated-ends too_long h = λ e. cc
  validated-ends (lex_fails col x) h = λ e. cc
  validated-ends (parse_fails at x) h = λ e. cc
  validated-ends (invalid x) h = λ e. cc
  validated-ends out_of_fuel h = λ e. h e

  -- For every text, whatever ParseFloat reads as a number, building its filter ends: the lexer ends
  -- with at least one token or an error, no loop of the parser runs on, and the answer is a filter
  -- or an error of one of the steps.
  pub build_sql_filter-ends : (expr : List ℕ) → build_sql_filter numbers expr ≢ out_of_fuel
  unfolding build_sql_filter lex
  build_sql_filter-ends expr =
      if-elim (λ (b : Built F). b ≢ out_of_fuel) (ltb max_expr_bytes (length expr)) _ _ (λ h e. cc)
        (λ h. validated-ends (parse_sql92 numbers (lex (is_float numbers) expr)) (
          parse_sql92-ends (lex (is_float numbers) expr)
            (lex_from-IsLexed (is_float numbers) (length expr) 0 expr (omega arith))))
