-- ===== src/Exit/Naming/Slugs.antt =====
-- What slugify of cmd/revquic-exit/main.go makes of a name.
use revquic.Prelude.{
  ℕ, ◌+◌, ◌≡◌, refl, ap, ◌∙◌, inl, inr, Bool, true, false, [], ◌∷◌, ◌++◌, arith, ◌&&◌, ◌||◌, not,
  ◌==◌, if◌then◌else◌, Bool-cases,
}
use revquic.Exit.Naming.{
  Text, is_alnum, hyphen, is_empty, slug_loop, trim_left, trim_right, slugify, derive_node_id,
  rand_suffix, four_digits, exit_prefix,
}

-- Letters and digits in words with one hyphen between two; `after` is whether a hyphen may come next,
-- and a text that ends right after a hyphen is none.
unfoldable pub is_words : (after : Bool) → Text → Bool
is_words after [] = after
is_words after (r ∷ rs) =
    let word = is_words true rs in
    let gap = is_words false rs in
    if is_alnum r then word else if r == hyphen && after then gap else false

-- A slug: words of letters and digits with single hyphens between them, or the empty text.
unfoldable pub is_slug : Text → Bool
is_slug rs = is_empty rs || is_words false rs

-- The same, but where a hyphen may end the text.
is_loose : (after : Bool) → Text → Bool
is_loose after [] = true
is_loose after (r ∷ rs) =
    let word = is_loose true rs in
    let gap = is_loose false rs in
    if is_alnum r then word else if r == hyphen && after then gap else false

slug_loop_loose :
    (prev_hyphen started : Bool) (rs : Text)
    → is_loose (not prev_hyphen && started) (slug_loop prev_hyphen started rs) ≡ true
unfolding slug_loop is_loose
slug_loop_loose p s [] = refl
slug_loop_loose p s (r ∷ rs) =
    ground (arith, slug_loop_loose false true rs, slug_loop_loose true s rs, slug_loop_loose p s rs)

trim_left_loose : (rs : Text) → is_loose false rs ≡ true → trim_left rs ≡ rs
unfolding is_loose trim_left
trim_left_loose [] h = refl
trim_left_loose (r ∷ rs) h = ground arith

trim_right_words :
    (after : Bool) (rs : Text)
    → is_loose after rs ≡ true
    → (is_empty (trim_right rs) || is_words after (trim_right rs)) ≡ true
unfolding is_loose is_words trim_right
trim_right_words after [] h = ground arith
trim_right_words after (r ∷ rs) h =
    ground (arith, trim_right_words true rs, trim_right_words false rs)

words_join :
    (after : Bool) (xs ys : Text)
    → is_words after xs ≡ true
    → is_words false ys ≡ true
    → is_words after (xs ++ hyphen ∷ ys) ≡ true
unfolding is_words
words_join after [] ys h k = ground arith
words_join after (x ∷ xs) ys h k = ground (arith, words_join true xs ys, words_join false xs ys)

digits_words : (n : ℕ) → is_words false (four_digits n) ≡ true
unfolding is_words four_digits
digits_words n = ground arith

-- A text of which only hyphens could go has none to lose.
slug_loop_fixed : (p s : Bool) (rs : Text) → is_words (not p && s) rs ≡ true → slug_loop p s rs ≡ rs
unfolding slug_loop is_words
slug_loop_fixed p s [] h = refl
slug_loop_fixed p s (r ∷ rs) h =
    ground (arith, slug_loop_fixed false true rs, slug_loop_fixed true s rs)

trim_right_fixed : (after : Bool) (rs : Text) → is_words after rs ≡ true → trim_right rs ≡ rs
unfolding is_words trim_right
trim_right_fixed after [] h = refl
trim_right_fixed after (r ∷ []) h = ground arith
trim_right_fixed after (r ∷ q ∷ rs) h =
    ground (arith, trim_right_fixed true (q ∷ rs), trim_right_fixed false (q ∷ rs))

trim_left_fixed : (rs : Text) → is_words false rs ≡ true → trim_left rs ≡ rs
unfolding is_words trim_left
trim_left_fixed [] h = refl
trim_left_fixed (r ∷ rs) h = ground arith

slug_chars : Text → Text
slug_chars rs = trim_right (trim_left (slug_loop false false rs))

slug_chars-is_slug : (rs : Text) → is_slug (slug_chars rs) ≡ true
unfolding is_slug slug_chars
slug_chars-is_slug rs =
    let loose = slug_loop_loose false false rs in
    rw (trim_left_loose (slug_loop false false rs) loose)
      (trim_right_words false (slug_loop false false rs) loose)

slug_chars_fixed : (rs : Text) → is_slug rs ≡ true → slug_chars rs ≡ rs
unfolding is_slug slug_chars slug_loop trim_left trim_right
slug_chars_fixed [] h = refl
slug_chars_fixed (r ∷ rs) h =
    ap (λ t. trim_right (trim_left t)) (slug_loop_fixed false false (r ∷ rs) h)
    ∙ ap trim_right (trim_left_fixed (r ∷ rs) h)
    ∙ trim_right_fixed false (r ∷ rs) h

-- Whatever the name, slugify gives the empty text, or words of the letters a to z and the digits with
-- exactly one hyphen between two words; and it keeps a text of that form that is in lower case and
-- has no outer white space.
pub slugify-is_slug :
    (to_lower trim_space : Text → Text) (name slug : Text)
    → is_slug slug ≡ true
    → to_lower (trim_space slug) ≡ slug
    → (is_slug (slugify to_lower trim_space name) ≡ true)
      × (slugify to_lower trim_space slug ≡ slug)
unfolding slugify slug_chars
slugify-is_slug to_lower trim_space name slug form low =
    (slug_chars-is_slug (to_lower (trim_space name)), rw low (slug_chars_fixed slug form))

slug_with_suffix :
    (slug : Text) (n : ℕ)
    → is_slug slug ≡ true
    → is_empty slug ≡ false
    → is_slug (slug ++ hyphen ∷ four_digits n) ≡ true
unfolding is_slug
slug_with_suffix [] n form full = ground arith
slug_with_suffix (r ∷ rs) n form full =
    words_join false (r ∷ rs) (four_digits n) form (digits_words n)

append_full : (xs ys : Text) → is_empty xs ≡ false → is_empty (xs ++ ys) ≡ false
append_full [] ys h = ground arith
append_full (x ∷ xs) ys h = refl

exit_slug : (n : ℕ) → is_slug (exit_prefix ++ four_digits n) ≡ true
unfolding is_slug is_words
exit_slug n = digits_words n

module _ (to_lower trim_space : Text → Text) where
  -- Without an explicit node id the derived one is never empty, and it is a slug.
  pub derive_node_id-is_slug :
      (intn : ℕ) (node_id name : Text)
      → trim_space node_id ≡ []
      → (is_slug (derive_node_id to_lower trim_space intn node_id name) ≡ true)
        × (is_empty (derive_node_id to_lower trim_space intn node_id name) ≡ false)
  unfolding derive_node_id slugify rand_suffix slug_chars
  derive_node_id-is_slug intn node_id name blank =
      let slug = slug_chars (to_lower (trim_space name)) in
      let form = slug_chars-is_slug (to_lower (trim_space name)) in
      rw (blank, derive_node_id)
        (elim (Bool-cases (is_empty slug)) [
          | inl empty ↦ rw empty (exit_slug (1000 + intn), refl)
          | inr full ↦ rw full (
            slug_with_suffix slug (1000 + intn) form full,
            append_full slug (hyphen ∷ four_digits (1000 + intn)) full,
          )
        ])
