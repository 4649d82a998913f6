-- ===== src/Filter/Tags.antt =====
-- ParseFilter, parseTagFilter and TagFilter.Match of internal/core/deliver/filter.go.
-- strings.TrimSpace is the parameter `trim`.
use sq.Common.{
  ◌⊎◌, ℕ, ◌≡◌, ◌≢◌, ◌↔◌, refl, sym, ◌∙◌, ap, arith, Bool, true, false, ◌&&◌, ◌||◌, List, [], ◌∷◌,
  ◌++◌, map, Option, none, some, ◌==◌, if◌then◌else◌, All, Bool-cases, inl, inr, bytes_eq,
  bytes_eq_iff, codes, bytes_ne→eq_false,
}
use sq.Message.{Message}
use sq.Filter.{Filter, result_true, result_false, result_unknown}
use sq.Filter.Sql.{Floats, eval_node}
use sq.Filter.Parser.{Numbers}
use sq.Filter.Build.{Built, build_sql_filter, built}

-- The values of FilterKind; filter_other is any other number.
pub data FilterKind : Type 0 where
  filter_tag filter_sql92 filter_other : FilterKind

abbrev pub bar : ℕ
bar = 124

abbrev pub all_pass : Filter
all_pass = record { is_tag_filter = false; matches = λ m. result_true }

abbrev before_first : ℕ → List (List ℕ) → List (List ℕ)
before_first c [] = (c ∷ []) ∷ []
before_first c (t ∷ ts) = (c ∷ t) ∷ ts

-- strings.Split at "||".
unfoldable pub split_bars : List ℕ → List (List ℕ)
split_bars [] = [] ∷ []
split_bars (c ∷ []) = (c ∷ []) ∷ []
split_bars (c ∷ d ∷ s) =
    let behind = split_bars s in
    let more = split_bars (d ∷ s) in
    if (c == bar) && (d == bar) then [] ∷ behind else before_first c more

unfoldable pub has_tag : List ℕ → List (List ℕ) → Bool
has_tag tag [] = false
has_tag tag (t ∷ ts) = bytes_eq tag t || has_tag tag ts

unfoldable pub tag_filter : List (List ℕ) → Filter
tag_filter tags = record {
  is_tag_filter = true;
  matches = λ m. if has_tag m.tag tags then result_true else result_false;
}

module _ (trim : List ℕ → List ℕ) where
  -- The loop of parseTagFilter; `none` is an empty tag.
  unfoldable pub trimmed_tags : List (List ℕ) → Option (List (List ℕ))
  trimmed_tags [] = some []
  trimmed_tags (t ∷ ts) =
      let rest = trimmed_tags ts in
      if bytes_eq (trim t) []
      then none
      else elim rest [ none ↦ none | some tags ↦ some (trim t ∷ tags) ]

  unfoldable pub parse_tag_filter : List ℕ → Option Filter
  parse_tag_filter expr = elim (trimmed_tags (split_bars expr)) [
    | none ↦ none
    | some tags ↦ some (tag_filter tags)
  ]

  module _ {F : Type 0} (numbers : Numbers F) (floats : Floats F) where
    abbrev sql_filter : Built F → Option Filter
    sql_filter (built n) = some (record { is_tag_filter = false; matches = eval_node floats n })
    sql_filter b = none

    -- ParseFilter; `none` is an error.
    unfoldable pub parse_filter : FilterKind → List ℕ → Option Filter
    parse_filter filter_tag expr =
        if bytes_eq (trim expr) [] || bytes_eq (trim expr) (codes "*")
        then some all_pass
        else parse_tag_filter expr
    parse_filter filter_sql92 expr = sql_filter (build_sql_filter numbers expr)
    parse_filter filter_other expr = none

-- The tags with bars between them.
unfoldable pub join_bars : List ℕ → List (List ℕ) → List ℕ
join_bars t [] = t
join_bars t (u ∷ ts) = t ++ (bar ∷ bar ∷ join_bars u ts)

abbrev pub HasNoBar : List ℕ → Type 0
HasNoBar t = All (λ c. c ≢ bar) t

split_bars-other :
    (c : ℕ) (s : List ℕ) → c ≢ bar → split_bars (c ∷ s) ≡ before_first c (split_bars s)
unfolding split_bars
split_bars-other c [] h = refl
split_bars-other c (d ∷ s) h = let e : (c == bar) ≡ false = ground arith in rw e refl

split_bars-word : (t : List ℕ) → HasNoBar t → split_bars t ≡ t ∷ []
unfolding split_bars
split_bars-word [] h = refl
split_bars-word (c ∷ t) (h, hs) = split_bars-other c t h ∙ rw (split_bars-word t hs) refl

split_bars-before :
    (t s : List ℕ) → HasNoBar t → split_bars (t ++ (bar ∷ bar ∷ s)) ≡ t ∷ split_bars s
unfolding split_bars
split_bars-before [] s h = refl
split_bars-before (c ∷ t) s (h, hs) =
    split_bars-other c (t ++ (bar ∷ bar ∷ s)) h ∙ rw (split_bars-before t s hs) refl

split_bars-join_bars :
    (t : List ℕ) (ts : List (List ℕ)) → All HasNoBar (t ∷ ts) → split_bars (join_bars t ts) ≡ t ∷ ts
unfolding join_bars
split_bars-join_bars t [] (h, hs) = split_bars-word t h
split_bars-join_bars t (u ∷ ts) (h, hs) =
    split_bars-before t (join_bars u ts) h ∙ ap (λ l. t ∷ l) (split_bars-join_bars u ts hs)

abbrev pub IsAmong : List ℕ → List (List ℕ) → Type 0
IsAmong tag [] = ⊥
IsAmong tag (t ∷ ts) = (tag ≡ t) ⊎ IsAmong tag ts

not_both : true ≢ false
not_both e = cc

has_tag_iff : (tag : List ℕ) (tags : List (List ℕ)) → (has_tag tag tags ≡ true) ↔ IsAmong tag tags
unfolding has_tag
has_tag_iff tag [] = (λ e. absurd (not_both (sym e)), λ e. absurd e)
has_tag_iff tag (t ∷ ts) = elim (Bool-cases (bytes_eq tag t)) [
  | inl e ↦ (λ h. inl ((bytes_eq_iff tag t).0 e), λ h. rw e refl)
  | inr e ↦ (
    λ h. inr ((has_tag_iff tag ts).0 (rw e at h)),
    λ h. elim h [
      | inl same ↦ absurd (not_both (sym ((bytes_eq_iff tag t).1 same) ∙ e))
      | inr later ↦ rw e ((has_tag_iff tag ts).1 later)
    ],
  )
]

trimmed_tags-map :
    (trim : List ℕ → List ℕ) (ts : List (List ℕ))
    → All (λ t. trim t ≢ []) ts
    → trimmed_tags trim ts ≡ some (map trim ts)
unfolding trimmed_tags
trimmed_tags-map trim [] h = refl
trimmed_tags-map trim (t ∷ ts) (h, hs) =
    rw (bytes_ne→eq_false (trim t) [] h, trimmed_tags-map trim ts hs) refl

parse_tag_filter-join_bars :
    (trim : List ℕ → List ℕ) (t : List ℕ) (ts : List (List ℕ))
    → All HasNoBar (t ∷ ts)
    → All (λ u. trim u ≢ []) (t ∷ ts)
    → parse_tag_filter trim (join_bars t ts) ≡ some (tag_filter (map trim (t ∷ ts)))
unfolding parse_tag_filter
parse_tag_filter-join_bars trim t ts bars blank =
    let tags : trimmed_tags trim (split_bars (join_bars t ts)) ≡ some (map trim (t ∷ ts)) =
      rw (split_bars-join_bars t ts bars) (trimmed_tags-map trim (t ∷ ts) blank) in
    rw (tags, parse_tag_filter) refl

module _ (trim : List ℕ → List ℕ) {F : Type 0} (numbers : Numbers F) (floats : Floats F) where
  -- A tag expression that is neither blank nor a star, of tags without a bar and not blank, is a
  -- filter: it lets through the messages whose tag is one of the trimmed tags, and no other, and of
  -- none is the result unknown.
  pub parse_filter-join_bars :
      (t : List ℕ) (ts : List (List ℕ))
      → All HasNoBar (t ∷ ts)
      → All (λ u. trim u ≢ []) (t ∷ ts)
      → trim (join_bars t ts) ≢ []
      → trim (join_bars t ts) ≢ codes "*"
      → (f : Filter) × (parse_filter trim numbers floats filter_tag (join_bars t ts) ≡ some f)
        × ((m : Message) → (f.matches m ≡ result_true) ↔ IsAmong m.tag (map trim (t ∷ ts)))
        × ((m : Message) → f.matches m ≢ result_unknown)
  unfolding parse_filter parse_tag_filter tag_filter
  parse_filter-join_bars t ts bars blank whole star = (
    tag_filter (map trim (t ∷ ts)),
    rw
        (
          bytes_ne→eq_false (trim (join_bars t ts)) [] whole,
          bytes_ne→eq_false (trim (join_bars t ts)) (codes "*") star,
          parse_tag_filter-join_bars trim t ts bars blank,
        )
        refl,
    λ m. matched m (has_tag m.tag (map trim (t ∷ ts))) refl,
    λ m. known (has_tag m.tag (map trim (t ∷ ts))),
  )
    where
      matched :
          (m : Message) (b : Bool)
          → has_tag m.tag (map trim (t ∷ ts)) ≡ b
          → ((if b then result_true else result_false) ≡ result_true)
            ↔ IsAmong m.tag (map trim (t ∷ ts))
      matched m true e = (λ h. (has_tag_iff m.tag (map trim (t ∷ ts))).0 e, λ h. refl)
      matched m false e =
          (λ h. cc, λ h. absurd (not_both (sym ((has_tag_iff m.tag (map trim (t ∷ ts))).1 h) ∙ e)))

      known : (b : Bool) → (if b then result_true else result_false) ≢ result_unknown
      known true e = cc
      known false e = cc
