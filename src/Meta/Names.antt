-- ===== src/Meta/Names.antt =====
-- The check of names and the names of dead-letter topics.
use sq.Common.{ℕ, ◌≡◌, arith, Bool, true, ◌&&◌, ◌||◌, List, [], ◌∷◌, ◌++◌, codes, length, leb, ◌==◌}
use sq.Store.Keys.{IsName}

-- One character of the class [A-Za-z0-9_%\-].
unfoldable pub name_char : ℕ → Bool
name_char c =
    (leb b'A' c && leb c b'Z')
    || ((leb b'a' c && leb c b'z')
        || ((leb b'0' c && leb c b'9') || (c == b'_' || (c == b'%' || c == b'-'))))

unfoldable pub name_chars : List ℕ → Bool
unfolding name_char
name_chars [] = true
name_chars (c ∷ s) = name_char c && name_chars s

-- ValidateName, the match of ^[A-Za-z0-9_%\-]{1,127}$.
unfoldable pub validate_name : List ℕ → Bool
unfolding name_chars
validate_name s = leb 1 (length s) && (leb (length s) 127 && name_chars s)

abbrev pub dlq_prefix : List ℕ
dlq_prefix = codes "%DLQ%"

unfoldable pub dlq_topic_name : List ℕ → List ℕ
dlq_topic_name group = dlq_prefix ++ group

name_chars-IsName : (s : List ℕ) → name_chars s ≡ true → IsName s
unfolding name_chars
name_chars-IsName [] h = tt
name_chars-IsName (c ∷ s) h = (λ e. cc (rw e at h), name_chars-IsName s (ground arith))

-- A valid name holds no '/', which is what the encoding of keys needs.
pub validate_name-IsName : (s : List ℕ) → validate_name s ≡ true → IsName s
unfolding validate_name
validate_name-IsName s h = name_chars-IsName s (ground arith)

-- The dead-letter topic of a group that has a valid name is itself a valid name exactly when the
-- group's name has at most 122 characters, five fewer than a name may have.
pub validate_name-dlq_topic_name :
    (group : List ℕ)
    → validate_name group ≡ true
    → validate_name (dlq_topic_name group) ≡ leb (length group) 122
unfolding validate_name dlq_topic_name
validate_name-dlq_topic_name group h = ground arith
