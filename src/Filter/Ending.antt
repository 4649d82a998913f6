-- ===== src/Filter/Ending.antt =====
-- The loops of the SQL92 lexer and parser end: their fuel, the bytes and the tokens that are left,
-- is enough for every text.
use sq.Common.{
  ℕ, zero, suc, ◌+◌, ◌≤◌, ◌<◌, ◌≡◌, ◌≢◌, refl, ap, ◌∙◌, arith, Bool, true, false, List, [], ◌∷◌,
  ◌++◌, Option, none, some, if-elim, length, inl, inr, List-cases, ◌⊎◌, ◌||◌,
}
use sq.Filter.Sql.{Constant, Node, Op, and_node, or_node}
use sq.Filter.Lexer.{
  Keyword, TokenKind, kw_and, kw_between, kw_false, kw_in, kw_is, kw_not, kw_null, kw_or, kw_true,
  tok_comma, tok_eof, tok_ident, tok_keyword, tok_lparen, tok_number, tok_op, tok_rparen,
  tok_string,
}
use sq.Filter.Parser.{
  Cursor, Numbers, Parsed, after_not, and_loop, at_end, max_ast_depth, parse_tokens, close,
  compare_with, const_compare, const_left, constant_of, err, expect_null, expects_predicate,
  ident_form, in_after, in_loop, illegal_number, is_keyword, is_lparen, is_rparen, next, ok,
  number_constant, or_level, or_loop, parse_and, parse_between, parse_const_left, parse_constant,
  parse_in, parse_is_null, parse_not, parse_or, parse_primary, primary_of, stuck, ◌>>=◌,
}

-- The parse does not run out of fuel, and what is left is no longer than what was there.
abbrev Fine : {A : Type 0} → ℕ → Parsed (A × Cursor) → Type 0
Fine n (ok r) = length r.1.rest ≤ n
Fine n (err t e) = Unit {0}
Fine n stuck = ⊥

module _ {A B : Type 0} where
  Fine-bind :
      (n : ℕ) (m : Parsed (A × Cursor)) (f : A × Cursor → Parsed (B × Cursor))
      → Fine n m
      → ((r : A × Cursor) → length r.1.rest ≤ n → Fine n (f r))
      → Fine n (m >>= f)
  Fine-bind n (ok r) f h k = k r h
  Fine-bind n (err t e) f h k = tt
  Fine-bind n stuck f h k = absurd h

Fine-weaken : {A : Type 0} (m n : ℕ) (p : Parsed (A × Cursor)) → m ≤ n → Fine m p → Fine n p
Fine-weaken m n (ok r) h k = omega arith
Fine-weaken m n (err t e) h k = tt
Fine-weaken m n stuck h k = k

next-cases : (c : Cursor) → (next c ≡ c) ⊎ (length (next c).rest < length c.rest)
unfolding next
next-cases c = elim (List-cases c.rest) [
  | inl e ↦ inl (rw e)
  | inr (t, ts, e) ↦ inr (rw e (omega arith))
]

next-le : (c : Cursor) (n : ℕ) → length c.rest ≤ n → length (next c).rest ≤ n
next-le c n h = elim (next-cases c) [ inl e ↦ rw e h | inr l ↦ omega arith ]

module _ {F : Type 0} (numbers : Numbers F) where
  constant_of-Fine :
      (c : Cursor) (n : ℕ) (k : TokenKind) → length c.rest ≤ n → Fine n (constant_of numbers c k)
  unfolding constant_of
  constant_of-Fine c n (tok_number text) h = known (number_constant numbers text)
    where
      known :
          (o : Option (Constant F))
          → Fine n (elim o as (λ z. Parsed (Constant F × Cursor)) [
            | some k ↦ ok (k, next c)
            | none ↦ err c.cur illegal_number
          ])
      known none = tt
      known (some k) = next-le c n h
  constant_of-Fine c n (tok_string s) h = next-le c n h
  constant_of-Fine c n (tok_keyword kw_true) h = next-le c n h
  constant_of-Fine c n (tok_keyword kw_false) h = next-le c n h
  constant_of-Fine c n (tok_keyword kw_null) h = next-le c n h
  constant_of-Fine c n k h = tt

  parse_constant-Fine : (c : Cursor) (n : ℕ) → length c.rest ≤ n → Fine n (parse_constant numbers c)
  unfolding parse_constant
  parse_constant-Fine c n h = constant_of-Fine c n c.cur.kind h

  expect_null-Fine :
      (ident : List ℕ) (negated : Bool) (c : Cursor) (n : ℕ)
      → length c.rest ≤ n
      → Fine n (expect_null numbers ident negated c)
  unfolding expect_null
  expect_null-Fine ident negated c n h =
      if-elim (Fine n) (is_keyword numbers kw_null c.cur.kind) _ _ (λ e. next-le c n h) (λ e. tt)

  parse_is_null-Fine :
      (ident : List ℕ) (c : Cursor) (n : ℕ)
      → length c.rest ≤ n
      → Fine n (parse_is_null numbers ident c)
  unfolding parse_is_null
  parse_is_null-Fine ident c n h =
      let h' = next-le c n h in
      if-elim (Fine n) (is_keyword numbers kw_not (next c).cur.kind) _ _
        (λ e. expect_null-Fine ident true (next (next c)) n (next-le (next c) n h'))
        (λ e. expect_null-Fine ident false (next c) n h')

  parse_between-Fine :
      (ident : List ℕ) (negated : Bool) (c : Cursor) (n : ℕ)
      → length c.rest ≤ n
      → Fine n (parse_between numbers ident negated c)
  unfolding parse_between
  parse_between-Fine ident negated c n h =
      Fine-bind n (parse_constant numbers c) _ (parse_constant-Fine c n h) (λ (lo, c1) h1.
        if-elim (Fine n) (is_keyword numbers kw_and c1.cur.kind) _ _
          (λ e.
            Fine-bind n (parse_constant numbers (next c1)) _
              (parse_constant-Fine (next c1) n (next-le c1 n h1)) (λ (hi, c2) h2. h2))
          (λ e. tt))

  -- A comma is no constant.
  in_loop-comma :
      (fuel n : ℕ) (ident : List ℕ) (negated : Bool) (vals : List (Constant F)) (c : Cursor)
      → 0 < fuel
      → c.cur.kind ≡ tok_comma
      → Fine n (in_loop numbers fuel ident negated vals c)
  unfolding in_loop parse_constant constant_of
  in_loop-comma zero n ident negated vals c low e = absurd (omega arith)
  in_loop-comma (suc fuel) n ident negated vals c low e = rw (e, constant_of) tt

  in_after-Fine :
      (c : Cursor) (n : ℕ) (k : TokenKind) (again : Cursor → Parsed (Node F × Cursor)) (r : Node F)
      → length c.rest ≤ n
      → (k ≡ tok_comma → Fine n (again (next c)))
      → Fine n (in_after numbers k again r c)
  unfolding in_after
  in_after-Fine c n tok_comma again r h f = f refl
  in_after-Fine c n tok_rparen again r h f = next-le c n h
  in_after-Fine c n k again r h f = tt

  in_loop-Fine :
      (fuel n : ℕ) (ident : List ℕ) (negated : Bool) (vals : List (Constant F)) (c : Cursor)
      → length c.rest + 1 < fuel
      → length c.rest ≤ n
      → Fine n (in_loop numbers fuel ident negated vals c)
  unfolding in_loop
  in_loop-Fine zero n ident negated vals c low h = absurd (omega arith)
  in_loop-Fine (suc fuel) n ident negated vals c low h = Fine-weaken (length c.rest) n _ h (
      Fine-bind (length c.rest) (parse_constant numbers c) _
        (parse_constant-Fine c (length c.rest) (omega arith))
        (λ (v, c') h'. in_after-Fine c' (length c.rest) c'.cur.kind _ _ h' (λ comma.
          elim (next-cases c') [
            | inl e ↦
                in_loop-comma fuel (length c.rest) ident negated (vals ++ (v ∷ [])) (next c')
                  (omega arith) (ap (λ (x : Cursor). x.cur.kind) e ∙ comma)
            | inr l ↦
                in_loop-Fine fuel (length c.rest) ident negated (vals ++ (v ∷ [])) (next c')
                  (omega arith) (omega arith)
          ])))

  parse_in-Fine :
      (ident : List ℕ) (negated : Bool) (c : Cursor) (n : ℕ)
      → length c.rest ≤ n
      → Fine n (parse_in numbers ident negated c)
  unfolding parse_in
  parse_in-Fine ident negated c n h =
      let h' = next-le c n h in
      if-elim (Fine n) (is_lparen numbers c.cur.kind) _ _
        (λ e.
          if-elim (Fine n) (is_rparen numbers (next c).cur.kind) _ _ (λ f. tt)
            (λ f.
              in_loop-Fine (length (next c).rest + 2) n ident negated [] (next c) (omega arith) h'))
        (λ e. tt)

  after_not-Fine :
      (ident : List ℕ) (c : Cursor) (n : ℕ) (k : TokenKind)
      → length c.rest ≤ n
      → Fine n (after_not numbers ident c k)
  unfolding after_not
  after_not-Fine ident c n (tok_keyword kw_in) h =
      parse_in-Fine ident true (next c) n (next-le c n h)
  after_not-Fine ident c n (tok_keyword kw_between) h =
      parse_between-Fine ident true (next c) n (next-le c n h)
  after_not-Fine ident c n k h = tt

  compare_with-Fine :
      (ident : List ℕ) (op : Op) (c : Cursor) (n : ℕ) (k : TokenKind)
      → length c.rest ≤ n
      → Fine n (compare_with numbers ident op c k)
  unfolding compare_with
  compare_with-Fine ident op c n (tok_ident other) h = tt
  compare_with-Fine ident op c n k h =
      Fine-bind n (parse_constant numbers c) _ (parse_constant-Fine c n h) (λ (v, c') h'. h')

  ident_form-Fine :
      (ident : List ℕ) (c : Cursor) (n : ℕ) (k : TokenKind)
      → length c.rest ≤ n
      → Fine n (ident_form numbers ident c k)
  unfolding ident_form
  ident_form-Fine ident c n (tok_op op) h =
      compare_with-Fine ident op (next c) n (next c).cur.kind (next-le c n h)
  ident_form-Fine ident c n (tok_keyword kw_is) h = parse_is_null-Fine ident c n h
  ident_form-Fine ident c n (tok_keyword kw_not) h =
      after_not-Fine ident (next c) n (next c).cur.kind (next-le c n h)
  ident_form-Fine ident c n (tok_keyword kw_between) h =
      parse_between-Fine ident false (next c) n (next-le c n h)
  ident_form-Fine ident c n (tok_keyword kw_in) h =
      parse_in-Fine ident false (next c) n (next-le c n h)
  ident_form-Fine ident c n k h = tt

  const_compare-Fine :
      (v : Constant F) (op : Op) (c : Cursor) (n : ℕ) (k : TokenKind)
      → length c.rest ≤ n
      → Fine n (const_compare numbers v op c k)
  unfolding const_compare
  const_compare-Fine v op c n (tok_ident ident) h = next-le c n h
  const_compare-Fine v op c n k h = tt

  const_left-Fine :
      (v : Constant F) (c : Cursor) (n : ℕ) (k : TokenKind)
      → length c.rest ≤ n
      → Fine n (const_left numbers v c k)
  unfolding const_left
  const_left-Fine v c n (tok_op op) h =
      const_compare-Fine v op (next c) n (next c).cur.kind (next-le c n h)
  const_left-Fine v c n (tok_keyword kw_is) h = tt
  const_left-Fine v c n (tok_keyword kw_between) h = tt
  const_left-Fine v c n (tok_keyword kw_in) h = tt
  const_left-Fine v c n k h = tt

  parse_const_left-Fine :
      (c : Cursor) (n : ℕ) → length c.rest ≤ n → Fine n (parse_const_left numbers c)
  unfolding parse_const_left
  parse_const_left-Fine c n h =
      Fine-bind n (parse_constant numbers c) _ (parse_constant-Fine c n h)
        (λ (v, c') h'. const_left-Fine v c' n c'.cur.kind h')

  close-Fine : (r : Node F × Cursor) (n : ℕ) → length r.1.rest ≤ n → Fine n (close numbers r)
  unfolding close
  close-Fine (r, c) n h =
      if-elim (Fine n) (is_rparen numbers c.cur.kind) _ _ (λ e. next-le c n h) (λ e. tt)

  -- What is parsed one parenthesis deeper, if anything is.
  abbrev FineInner : Option (Cursor → Parsed (Node F × Cursor)) → Type 0
  FineInner none = Unit {0}
  FineInner (some p) = (c : Cursor) → Fine (length c.rest) (p c)

  primary_of-Fine :
      (inner : Option (Cursor → Parsed (Node F × Cursor))) (c : Cursor) (n : ℕ) (k : TokenKind)
      → FineInner inner
      → length c.rest ≤ n
      → Fine n (primary_of numbers inner c k)
  unfolding primary_of
  primary_of-Fine none c n tok_lparen f h = tt
  primary_of-Fine (some p) c n tok_lparen f h =
      Fine-bind n (p (next c)) _
        (Fine-weaken (length (next c).rest) n (p (next c)) (next-le c n h) (f (next c)))
        (λ r h'. close-Fine r n h')
  primary_of-Fine inner c n (tok_ident ident) f h =
      ident_form-Fine ident (next c) n (next c).cur.kind (next-le c n h)
  primary_of-Fine inner c n (tok_number text) f h = parse_const_left-Fine c n h
  primary_of-Fine inner c n (tok_string text) f h = parse_const_left-Fine c n h
  primary_of-Fine inner c n (tok_keyword kw_true) f h = parse_const_left-Fine c n h
  primary_of-Fine inner c n (tok_keyword kw_false) f h = parse_const_left-Fine c n h
  primary_of-Fine inner c n k f h = tt

  -- No predicate starts with AND or OR.
  primary_of-joint :
      (inner : Option (Cursor → Parsed (Node F × Cursor))) (c : Cursor) (k : Keyword)
      → (is_keyword numbers kw_and (tok_keyword k) || is_keyword numbers kw_or (tok_keyword k))
        ≡ true
      → primary_of numbers inner c (tok_keyword k) ≡ err c.cur expects_predicate
  unfolding primary_of
  primary_of-joint none c kw_and e = refl
  primary_of-joint (some p) c kw_and e = refl
  primary_of-joint none c kw_or e = refl
  primary_of-joint (some p) c kw_or e = refl
  primary_of-joint inner c k e = cc

  -- The two words that join predicates.
  abbrev IsJoint : TokenKind → Type 0
  IsJoint k = (k ≡ tok_keyword kw_and) ⊎ (k ≡ tok_keyword kw_or)

  IsJoint-and : (k : TokenKind) → is_keyword numbers kw_and k ≡ true → IsJoint k
  IsJoint-and (tok_keyword kw_and) e = inl refl
  IsJoint-and k e = cc

  IsJoint-or : (k : TokenKind) → is_keyword numbers kw_or k ≡ true → IsJoint k
  IsJoint-or (tok_keyword kw_or) e = inr refl
  IsJoint-or k e = cc

  module _ (inner : Option (Cursor → Parsed (Node F × Cursor))) (f : FineInner inner) where
    parse_not-joint :
        (c : Cursor) → IsJoint c.cur.kind → parse_not numbers inner c ≡ err c.cur expects_predicate
    unfolding parse_not parse_primary
    parse_not-joint c (inl e) = simp e (primary_of-joint inner c kw_and refl)
    parse_not-joint c (inr e) = simp e (primary_of-joint inner c kw_or refl)

    parse_not-Fine : (c : Cursor) (n : ℕ) → length c.rest ≤ n → Fine n (parse_not numbers inner c)
    unfolding parse_not parse_primary
    parse_not-Fine c n h =
        if-elim (Fine n) (is_keyword numbers kw_not c.cur.kind) _ _
          (λ e.
            Fine-bind n (primary_of numbers inner (next c) (next c).cur.kind) _
              (primary_of-Fine inner (next c) n (next c).cur.kind f (next-le c n h)) (λ r h'. h'))
          (λ e. primary_of-Fine inner c n c.cur.kind f h)

    and_loop-Fine :
        (fuel n : ℕ) (left : Node F) (c : Cursor)
        → length c.rest < fuel
        → length c.rest ≤ n
        → Fine n (and_loop numbers inner fuel (left, c))
    unfolding and_loop
    and_loop-Fine zero n left c low h = absurd (omega arith)
    and_loop-Fine (suc fuel) n left c low h =
        if-elim (Fine n) (is_keyword numbers kw_and c.cur.kind) _ _
          (λ e. elim (next-cases c) [
            | inl same ↦ rw (same, parse_not-joint c (IsJoint-and c.cur.kind e)) tt
            | inr l ↦ Fine-weaken (length (next c).rest) n _ (omega arith) (
                Fine-bind (length (next c).rest) (parse_not numbers inner (next c)) _
                  (parse_not-Fine (next c) (length (next c).rest) (omega arith))
                  (λ (right, c') h'.
                    and_loop-Fine fuel (length (next c).rest) (and_node left right) c' (omega arith)
                      h'))
          ])
          (λ e. h)

    parse_and-Fine : (c : Cursor) (n : ℕ) → length c.rest ≤ n → Fine n (parse_and numbers inner c)
    unfolding parse_and
    parse_and-Fine c n h =
        Fine-bind n (parse_not numbers inner c) _ (parse_not-Fine c n h)
          (λ (r, c') h'. and_loop-Fine (suc (length c'.rest)) n r c' (omega arith) h')

    or_loop-Fine :
        (fuel n : ℕ) (left : Node F) (c : Cursor)
        → length c.rest < fuel
        → length c.rest ≤ n
        → Fine n (or_loop numbers inner fuel (left, c))
    unfolding or_loop parse_and
    or_loop-Fine zero n left c low h = absurd (omega arith)
    or_loop-Fine (suc fuel) n left c low h =
        if-elim (Fine n) (is_keyword numbers kw_or c.cur.kind) _ _
          (λ e. elim (next-cases c) [
            | inl same ↦ rw (same, parse_not-joint c (IsJoint-or c.cur.kind e)) tt
            | inr l ↦ Fine-weaken (length (next c).rest) n _ (omega arith) (
                Fine-bind (length (next c).rest) (parse_and numbers inner (next c)) _
                  (parse_and-Fine (next c) (length (next c).rest) (omega arith))
                  (λ (right, c') h'.
                    or_loop-Fine fuel (length (next c).rest) (or_node left right) c' (omega arith)
                      h'))
          ])
          (λ e. h)

    or_level-Fine : (c : Cursor) → Fine (length c.rest) (or_level numbers inner c)
    unfolding or_level
    or_level-Fine c =
        let n = length c.rest in
        Fine-bind n (parse_and numbers inner c) _ (parse_and-Fine c n (omega arith))
          (λ (r, c') h'. or_loop-Fine (suc (length c'.rest)) n r c' (omega arith) h')

  parse_or-Fine : (left : ℕ) (c : Cursor) → Fine (length c.rest) (parse_or numbers left c)
  unfolding parse_or
  parse_or-Fine zero c = or_level-Fine none tt c
  parse_or-Fine (suc left) c = or_level-Fine (some (parse_or numbers left)) (parse_or-Fine left) c

  pub parse_tokens-ends : (c : Cursor) → parse_tokens numbers c ≢ stuck
  unfolding parse_tokens
  parse_tokens-ends c =
      ends (length c.rest) (parse_or numbers max_ast_depth c) (parse_or-Fine max_ast_depth c)
    where
      at_end-ends : (n : Node F) (c : Cursor) (k : TokenKind) → at_end numbers n c k ≢ stuck
      at_end-ends n c tok_eof e = unfold at_end in cc
      at_end-ends n c k e = unfold at_end in cc

      ends :
          (m : ℕ) (p : Parsed (Node F × Cursor))
          → Fine m p
          → (p >>= λ (n, c'). at_end numbers n c' c'.cur.kind) ≢ stuck
      ends m (ok (n, c')) h e = at_end-ends n c' c'.cur.kind e
      ends m (err t r) h e = cc
      ends m stuck h e = h
