-- ===== src/Filter/Printed.antt =====
-- The parser reads every tree of its limits back from tokens that print it, with each operand of a
-- connective in parentheses.
use sq.Common.{
  ℕ, zero, suc, ◌+◌, ◌≤◌, ◌<◌, ◌≡◌, refl, ap, ◌∙◌, arith, Bool, true, false, List, [], ◌∷◌, ◌++◌,
  Option, none, some, if◌then◌else◌, length, append_assoc, All,
}
use sq.Filter.Sql.{
  Constant, Node, Op, and_node, between_node, cmp_node, in_node, is_null_node, not_node, or_node,
}
use sq.Filter.Lexer.{
  TokenKind, kw_and, kw_between, kw_false, kw_in, kw_is, kw_not, kw_null, kw_or, kw_true, tok_comma,
  tok_eof, tok_ident, tok_keyword, tok_lparen, tok_number, tok_op, tok_rparen, tok_string,
}
use sq.Filter.Parser.{
  Cursor, Numbers, Parsed, after_not, and_loop, at_end, bool_constant, close, compare_with,
  constant_of, expect_null, ident_form, in_after, in_loop, is_keyword, is_rparen, max_ast_depth,
  next, null_constant, number_constant, ok, or_level, or_loop, parse_and, parse_between,
  parse_constant, parse_in, parse_is_null, parse_not, parse_or, parse_primary, parse_tokens,
  primary_of, string_constant, ◌>>=◌,
}
use sq.Filter.Accepted.{height, height_pos}

-- A token before others; its column stands in no result but an error.
unfoldable pub push : TokenKind → Cursor → Cursor
push k c = record { cur = record { kind = k; col = 0 }; rest = c.cur ∷ c.rest }

next-push : (k : TokenKind) (c : Cursor) → next (push k c) ≡ c
unfolding next push
next-push k c = refl

module _ {F : Type 0} (numbers : Numbers F) where
  -- What a token says as a constant.
  abbrev pub Spells : TokenKind → Constant F → Type 0
  Spells (tok_number text) v = number_constant numbers text ≡ some v
  Spells (tok_string s) v = string_constant numbers s ≡ v
  Spells (tok_keyword kw_true) v = bool_constant numbers true ≡ v
  Spells (tok_keyword kw_false) v = bool_constant numbers false ≡ v
  Spells (tok_keyword kw_null) v = null_constant numbers ≡ v
  Spells k v = ⊥

  module _ (spell : Constant F → TokenKind) where
    -- The constants of an IN list behind its opening parenthesis.
    unfoldable pub print_list : Constant F → List (Constant F) → Cursor → Cursor
    print_list v [] c = push (spell v) (push tok_rparen c)
    print_list v (w ∷ vals) c = push (spell v) (push tok_comma (print_list w vals c))

    abbrev print_in : List (Constant F) → Cursor → Cursor
    print_in [] c = push tok_rparen c
    print_in (v ∷ vals) c = print_list v vals c

    abbrev negation : Bool → Cursor → Cursor
    negation negated c = if negated then push (tok_keyword kw_not) c else c

    -- The tokens of a tree, before what follows it.
    unfoldable pub print : Node F → Cursor → Cursor
    print (or_node l r) c = push tok_lparen (
        print l (
          push tok_rparen
            (push (tok_keyword kw_or) (push tok_lparen (print r (push tok_rparen c))))))
    print (and_node l r) c = push tok_lparen (
        print l (
          push tok_rparen
            (push (tok_keyword kw_and) (push tok_lparen (print r (push tok_rparen c))))))
    print (not_node n) c = push (tok_keyword kw_not) (push tok_lparen (print n (push tok_rparen c)))
    print (cmp_node ident op v) c = push (tok_ident ident) (push (tok_op op) (push (spell v) c))
    print (between_node ident lo hi negated) c = push (tok_ident ident) (
        negation negated (
          push (tok_keyword kw_between)
            (push (spell lo) (push (tok_keyword kw_and) (push (spell hi) c)))))
    print (in_node ident vals negated) c =
        push (tok_ident ident)
          (negation negated (push (tok_keyword kw_in) (push tok_lparen (print_in vals c))))
    print (is_null_node ident negated) c =
        push (tok_ident ident)
          (push (tok_keyword kw_is) (negation negated (push (tok_keyword kw_null) c)))

    abbrev IsSpelled : Constant F → Type 0
    IsSpelled v = Spells (spell v) v

    -- Every constant of the tree is spelled, and no IN list is empty.
    abbrev pub IsPrintable : Node F → Type 0
    IsPrintable (or_node l r) = IsPrintable l × IsPrintable r
    IsPrintable (and_node l r) = IsPrintable l × IsPrintable r
    IsPrintable (not_node n) = IsPrintable n
    IsPrintable (cmp_node ident op v) = IsSpelled v
    IsPrintable (between_node ident lo hi negated) = IsSpelled lo × IsSpelled hi
    IsPrintable (in_node ident [] negated) = ⊥
    IsPrintable (in_node ident (v ∷ vals) negated) = IsSpelled v × All IsSpelled vals
    IsPrintable (is_null_node ident negated) = Unit {0}

  parse_constant-push :
      (k : TokenKind) (v : Constant F) (c : Cursor)
      → Spells k v
      → parse_constant numbers (push k c) ≡ ok (v, c)
  unfolding parse_constant constant_of push next
  parse_constant-push (tok_number text) v c e = rw (e, parse_constant, constant_of, push)
  parse_constant-push (tok_string s) v c e = rw e
  parse_constant-push (tok_keyword kw_true) v c e = rw e
  parse_constant-push (tok_keyword kw_false) v c e = rw e
  parse_constant-push (tok_keyword kw_null) v c e = rw e
  parse_constant-push k v c e = absurd e

  constant_then :
      {B : Type 0} (k : TokenKind) (v : Constant F) (c : Cursor)
      (f : Constant F × Cursor → Parsed B)
      → Spells k v
      → (parse_constant numbers (push k c) >>= f) ≡ f (v, c)
  constant_then {B} k v c f e =
      ap (λ (m : Parsed (Constant F × Cursor)). m >>= f) (parse_constant-push k v c e)

  not_rparen : (k : TokenKind) (v : Constant F) → Spells k v → is_rparen numbers k ≡ false
  not_rparen tok_rparen v e = absurd e
  not_rparen k v e = refl

  -- Neither AND nor OR follows.
  abbrev Follows : Cursor → Type 0
  Follows c =
      (is_keyword numbers kw_and c.cur.kind ≡ false) × (is_keyword numbers kw_or c.cur.kind ≡ false)

  abbrev Inner : Type 0
  Inner = Option (Cursor → Parsed (Node F × Cursor))

  module _ (inner : Inner) where
    and_loop-stops :
        (fuel : ℕ) (n : Node F) (c : Cursor)
        → is_keyword numbers kw_and c.cur.kind ≡ false
        → and_loop numbers inner (suc fuel) (n, c) ≡ ok (n, c)
    unfolding and_loop
    and_loop-stops fuel n c e = simp e

    or_loop-stops :
        (fuel : ℕ) (n : Node F) (c : Cursor)
        → is_keyword numbers kw_or c.cur.kind ≡ false
        → or_loop numbers inner (suc fuel) (n, c) ≡ ok (n, c)
    unfolding or_loop
    or_loop-stops fuel n c e = simp e

    -- One operand that nothing joins.
    and_alone :
        (n : Node F) (c d : Cursor)
        → parse_not numbers inner c ≡ ok (n, d)
        → is_keyword numbers kw_and d.cur.kind ≡ false
        → parse_and numbers inner c ≡ ok (n, d)
    unfolding parse_and
    and_alone n c d e h = simp e (and_loop-stops (length d.rest) n d h)

    or_alone :
        (n : Node F) (c d : Cursor)
        → parse_not numbers inner c ≡ ok (n, d)
        → Follows d
        → or_level numbers inner c ≡ ok (n, d)
    unfolding or_level
    or_alone n c d e h = simp (and_alone n c d e h.0) (or_loop-stops (length d.rest) n d h.1)

    and_loop-joins :
        (fuel : ℕ) (l r : Node F) (d e : Cursor)
        → parse_not numbers inner d ≡ ok (r, e)
        → and_loop numbers inner (suc fuel) (l, push (tok_keyword kw_and) d)
          ≡ and_loop numbers inner fuel (and_node l r, e)
    unfolding and_loop push next
    and_loop-joins fuel l r d e q =
        ap
          (λ (m : Parsed (Node F × Cursor)).
            m >>= λ (right, c). and_loop numbers inner fuel (and_node l right, c))
          q

    or_loop-joins :
        (fuel : ℕ) (l r : Node F) (d e : Cursor)
        → parse_and numbers inner d ≡ ok (r, e)
        → or_loop numbers inner (suc fuel) (l, push (tok_keyword kw_or) d)
          ≡ or_loop numbers inner fuel (or_node l r, e)
    unfolding or_loop push next
    or_loop-joins fuel l r d e q =
        ap
          (λ (m : Parsed (Node F × Cursor)).
            m >>= λ (right, c). or_loop numbers inner fuel (or_node l right, c))
          q

    or_two :
        (l r : Node F) (c d e : Cursor)
        → parse_not numbers inner c ≡ ok (l, push (tok_keyword kw_or) d)
        → parse_not numbers inner d ≡ ok (r, e)
        → Follows e
        → or_level numbers inner c ≡ ok (or_node l r, e)
    unfolding or_level push
    or_two l r c d e p q h =
        ap
          (λ (m : Parsed (Node F × Cursor)).
            m >>= λ (n, k). or_loop numbers inner (suc (length k.rest)) (n, k))
          (and_alone l c (push (tok_keyword kw_or) d) p refl)
        ∙ or_loop-joins (suc (length d.rest)) l r d e (and_alone r d e q h.0)
        ∙ or_loop-stops (length d.rest) (or_node l r) e h.1

    and_two :
        (l r : Node F) (c d e : Cursor)
        → parse_not numbers inner c ≡ ok (l, push (tok_keyword kw_and) d)
        → parse_not numbers inner d ≡ ok (r, e)
        → Follows e
        → or_level numbers inner c ≡ ok (and_node l r, e)
    unfolding or_level push parse_and
    and_two l r c d e p q h =
        let chain =
          ap
            (λ (m : Parsed (Node F × Cursor)).
              m >>= λ (n, k). and_loop numbers inner (suc (length k.rest)) (n, k))
            p
          ∙ and_loop-joins (suc (length d.rest)) l r d e q
          ∙ and_loop-stops (length d.rest) (and_node l r) e h.0 in
        ap
          (λ (m : Parsed (Node F × Cursor)).
            m >>= λ (n, k). or_loop numbers inner (suc (length k.rest)) (n, k))
          chain
        ∙ or_loop-stops (length e.rest) (and_node l r) e h.1

  -- A parenthesis around what the inner parser reads.
  not_wrapped :
      (p : Cursor → Parsed (Node F × Cursor)) (n : Node F) (d c : Cursor)
      → p d ≡ ok (n, push tok_rparen c)
      → parse_not numbers (some p) (push tok_lparen d) ≡ ok (n, c)
  unfolding parse_not parse_primary primary_of push next close
  not_wrapped p n d c q = ap (λ (m : Parsed (Node F × Cursor)). m >>= close numbers) q

  not_not :
      (p : Cursor → Parsed (Node F × Cursor)) (n : Node F) (d c : Cursor)
      → p d ≡ ok (n, push tok_rparen c)
      → parse_not numbers (some p) (push (tok_keyword kw_not) (push tok_lparen d))
        ≡ ok (not_node n, c)
  unfolding parse_not parse_primary primary_of push next close
  not_not p n d c q =
      ap (λ (m : Parsed (Node F × Cursor)). m >>= close numbers >>= λ (k, e). ok (not_node k, e)) q

  -- A predicate that needs no parenthesis is read at every depth.
  or_leaf :
      (left : ℕ) (n : Node F) (c d : Cursor)
      → ((inner : Inner) → parse_not numbers inner d ≡ ok (n, c))
      → Follows c
      → parse_or numbers left d ≡ ok (n, c)
  unfolding parse_or
  or_leaf zero n c d h f = or_alone none n d c (h none) f
  or_leaf (suc left) n c d h f =
      or_alone (some (parse_or numbers left)) n d c (h (some (parse_or numbers left))) f

  module _ (spell : Constant F → TokenKind) where
    -- An attribute is read by its form.
    not_ident :
        (inner : Inner) (ident : List ℕ) (n : Node F) (d c : Cursor)
        → ident_form numbers ident d d.cur.kind ≡ ok (n, c)
        → parse_not numbers inner (push (tok_ident ident) d) ≡ ok (n, c)
    unfolding parse_not parse_primary primary_of push next
    not_ident none ident n d c e = e
    not_ident (some p) ident n d c e = e

    compare-print :
        (ident : List ℕ) (op : Op) (k : TokenKind) (v : Constant F) (c : Cursor)
        → Spells k v
        → ident_form numbers ident (push (tok_op op) (push k c)) (tok_op op)
          ≡ ok (cmp_node ident op v, c)
    unfolding ident_form compare_with push next
    compare-print ident op (tok_number text) v c e =
        constant_then (tok_number text) v c (λ (w, d). ok (cmp_node ident op w, d)) e
    compare-print ident op (tok_string text) v c e =
        constant_then (tok_string text) v c (λ (w, d). ok (cmp_node ident op w, d)) e
    compare-print ident op (tok_keyword k) v c e =
        constant_then (tok_keyword k) v c (λ (w, d). ok (cmp_node ident op w, d)) e
    compare-print ident op k v c e = absurd e

    between-print :
        (ident : List ℕ) (negated : Bool) (j k : TokenKind) (lo hi : Constant F) (c : Cursor)
        → Spells j lo
        → Spells k hi
        → parse_between numbers ident negated (push j (push (tok_keyword kw_and) (push k c)))
          ≡ ok (between_node ident lo hi negated, c)
    unfolding parse_between push next
    between-print ident negated j k lo hi c e f =
        constant_then j lo (push (tok_keyword kw_and) (push k c)) _ e
        ∙ constant_then k hi c (λ (w, d). ok (between_node ident lo w negated, d)) f

    in_loop-print :
        (fuel : ℕ) (ident : List ℕ) (negated : Bool) (before : List (Constant F)) (v : Constant F)
        (vals : List (Constant F)) (c : Cursor)
        → length vals < fuel
        → Spells (spell v) v
        → All (λ w. Spells (spell w) w) vals
        → in_loop numbers fuel ident negated before (print_list spell v vals c)
          ≡ ok (in_node ident (before ++ (v ∷ vals)) negated, c)
    unfolding in_loop print_list in_after push next
    in_loop-print zero ident negated before v vals c low e es = absurd (omega arith)
    in_loop-print (suc fuel) ident negated before v [] c low e es =
        constant_then (spell v) v (push tok_rparen c) _ e
    in_loop-print (suc fuel) ident negated before v (w ∷ vals) c low e es =
        constant_then (spell v) v (push tok_comma (print_list spell w vals c)) _ e
        ∙ in_loop-print fuel ident negated (before ++ (v ∷ [])) w vals c (omega arith) es.0 es.1
        ∙ ap (λ (l : List (Constant F)). ok (in_node ident l negated, c))
            (append_assoc before (v ∷ []) (w ∷ vals))

    length-print_list :
        (v : Constant F) (vals : List (Constant F)) (c : Cursor)
        → length vals ≤ length (print_list spell v vals c).rest
    unfolding print_list push
    length-print_list v [] c = omega arith
    length-print_list v (w ∷ vals) c = omega (arith, length-print_list w vals c)

    -- No constant is spelled as a closing parenthesis.
    list_opens :
        (v : Constant F) (vals : List (Constant F)) (c : Cursor)
        → Spells (spell v) v
        → is_rparen numbers (print_list spell v vals c).cur.kind ≡ false
    unfolding print_list push
    list_opens v [] c e = not_rparen (spell v) v e
    list_opens v (w ∷ vals) c e = not_rparen (spell v) v e

    in-print :
        (ident : List ℕ) (negated : Bool) (v : Constant F) (vals : List (Constant F)) (c : Cursor)
        → Spells (spell v) v
        → All (λ w. Spells (spell w) w) vals
        → parse_in numbers ident negated (push tok_lparen (print_list spell v vals c))
          ≡ ok (in_node ident (v ∷ vals) negated, c)
    unfolding parse_in push next
    in-print ident negated v vals c e es =
        let d = print_list spell v vals c in
        simp (list_opens v vals c e) (
          in_loop-print (length d.rest + 2) ident negated [] v vals c
            (omega (arith, length-print_list v vals c)) e es)

    null-print :
        (ident : List ℕ) (negated : Bool) (c : Cursor)
        → parse_is_null numbers ident (
            push (tok_keyword kw_is) (
              if negated
              then push (tok_keyword kw_not) (push (tok_keyword kw_null) c)
              else push (tok_keyword kw_null) c))
          ≡ ok (is_null_node ident negated, c)
    unfolding parse_is_null expect_null push next
    null-print ident true c = refl
    null-print ident false c = refl

    between_form :
        (ident : List ℕ) (negated : Bool) (lo hi : Constant F) (c : Cursor)
        → Spells (spell lo) lo × Spells (spell hi) hi
        → let d = negation spell negated (
            push
              (tok_keyword kw_between)
              (push (spell lo) (push (tok_keyword kw_and) (push (spell hi) c)))) in
          ident_form numbers ident d d.cur.kind ≡ ok (between_node ident lo hi negated, c)
    unfolding ident_form after_not push next
    between_form ident true lo hi c p =
        between-print ident true (spell lo) (spell hi) lo hi c p.0 p.1
    between_form ident false lo hi c p =
        between-print ident false (spell lo) (spell hi) lo hi c p.0 p.1

    in_form :
        (ident : List ℕ) (negated : Bool) (v : Constant F) (vals : List (Constant F)) (c : Cursor)
        → Spells (spell v) v × All (λ w. Spells (spell w) w) vals
        → let d =
            negation spell negated
              (push (tok_keyword kw_in) (push tok_lparen (print_list spell v vals c))) in
          ident_form numbers ident d d.cur.kind ≡ ok (in_node ident (v ∷ vals) negated, c)
    unfolding ident_form after_not push next
    in_form ident true v vals c p = in-print ident true v vals c p.0 p.1
    in_form ident false v vals c p = in-print ident false v vals c p.0 p.1

    -- Every tree that is printed is read back, at any depth that is enough for its height.
    parse_or-print :
        (n : Node F) (left : ℕ) (c : Cursor)
        → IsPrintable spell n
        → height n ≤ left + 1
        → Follows c
        → parse_or numbers left (print spell n c) ≡ ok (n, c)
    unfolding parse_or print push ident_form parse_is_null
    parse_or-print (or_node l r) zero c p h f = absurd (omega (arith, height_pos l))
    parse_or-print (or_node l r) (suc left) c p h f =
        let after = push tok_lparen (print spell r (push tok_rparen c)) in
        or_two (some (parse_or numbers left)) l r _ after c
          (not_wrapped (parse_or numbers left) l _ (push (tok_keyword kw_or) after) (
            parse_or-print l left (push tok_rparen (push (tok_keyword kw_or) after)) p.0
              (omega arith) (refl, refl)))
          (not_wrapped (parse_or numbers left) r _ c
            (parse_or-print r left (push tok_rparen c) p.1 (omega arith) (refl, refl)))
          f
    parse_or-print (and_node l r) zero c p h f = absurd (omega (arith, height_pos l))
    parse_or-print (and_node l r) (suc left) c p h f =
        let after = push tok_lparen (print spell r (push tok_rparen c)) in
        and_two (some (parse_or numbers left)) l r _ after c
          (not_wrapped (parse_or numbers left) l _ (push (tok_keyword kw_and) after) (
            parse_or-print l left (push tok_rparen (push (tok_keyword kw_and) after)) p.0
              (omega arith) (refl, refl)))
          (not_wrapped (parse_or numbers left) r _ c
            (parse_or-print r left (push tok_rparen c) p.1 (omega arith) (refl, refl)))
          f
    parse_or-print (not_node n) zero c p h f = absurd (omega (arith, height_pos n))
    parse_or-print (not_node n) (suc left) c p h f =
        or_alone (some (parse_or numbers left)) (not_node n) _ c
          (not_not (parse_or numbers left) n _ c
            (parse_or-print n left (push tok_rparen c) p (omega arith) (refl, refl)))
          f
    parse_or-print (cmp_node ident op v) left c p h f =
        or_leaf left _ c _
          (λ inner. not_ident inner ident _ _ c (compare-print ident op (spell v) v c p)) f
    parse_or-print (between_node ident lo hi negated) left c p h f =
        or_leaf left _ c _
          (λ inner. not_ident inner ident _ _ c (between_form ident negated lo hi c p)) f
    parse_or-print (in_node ident [] negated) left c p h f = absurd p
    parse_or-print (in_node ident (v ∷ vals) negated) left c p h f =
        or_leaf left _ c _ (λ inner. not_ident inner ident _ _ c (in_form ident negated v vals c p))
          f
    parse_or-print (is_null_node ident negated) left c p h f =
        or_leaf left _ c _ (λ inner. not_ident inner ident _ _ c (null-print ident negated c)) f

    -- The end of the tokens.
    abbrev pub the_end : Cursor
    the_end = record { cur = record { kind = tok_eof; col = 0 }; rest = [] }

    -- A tree of at most 17 nodes in height whose constants are spelled and whose IN lists are not
    -- empty is read back from the tokens that print it, each operand of AND, OR and NOT in
    -- parentheses.
    pub parse_tokens-print :
        (n : Node F)
        → IsPrintable spell n
        → height n ≤ max_ast_depth + 1
        → parse_tokens numbers (print spell n the_end) ≡ ok n
    unfolding parse_tokens at_end
    parse_tokens-print n p h =
        ap (λ (m : Parsed (Node F × Cursor)). m >>= λ (k, c). at_end numbers k c c.cur.kind)
          (parse_or-print n max_ast_depth the_end p h (refl, refl))
