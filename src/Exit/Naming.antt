-- ===== src/Exit/Naming.antt =====
-- deriveNodeID and slugify of cmd/revquic-exit/main.go. A text is the list of its code points. The
-- Unicode tables of strings.ToLower and strings.TrimSpace and the random number are parameters.
pub mod Slugs
use revquic.Prelude.{
  ℕ, ◌+◌, ◌/◌, ◌%◌, Bool, true, false, Option, List, [], ◌∷◌, ◌++◌, leb, ◌&&◌, ◌||◌, not, ◌==◌,
  if◌then◌else◌,
}

abbrev pub Text : Type 0
Text = List ℕ

-- 'a' to 'z' and '0' to '9'
abbrev pub is_alnum : ℕ → Bool
is_alnum r = (leb 97 r && leb r 122) || (leb 48 r && leb r 57)

abbrev pub hyphen : ℕ
hyphen = 45

abbrev pub is_empty {ℓ} : {A : Type ℓ} → List A → Bool
is_empty [] = true
is_empty (x ∷ xs) = false

-- What the loop of slugify still appends; `started` is b.Len() > 0.
unfoldable pub slug_loop : (prev_hyphen started : Bool) → Text → Text
slug_loop prev_hyphen started [] = []
slug_loop prev_hyphen started (r ∷ rs) =
    let letter = slug_loop false true rs in
    let gap = slug_loop true started rs in
    let skip = slug_loop prev_hyphen started rs in
    if is_alnum r then r ∷ letter else if not prev_hyphen && started then hyphen ∷ gap else skip

-- strings.Trim(s, "-")
unfoldable pub trim_left : Text → Text
trim_left [] = []
trim_left (r ∷ rs) = let rest = trim_left rs in if r == hyphen then rest else r ∷ rs

unfoldable pub trim_right : Text → Text
trim_right [] = []
trim_right (r ∷ rs) =
    let rest = trim_right rs in if is_empty rest && (r == hyphen) then [] else r ∷ rest

unfoldable pub slugify : (to_lower trim_space : Text → Text) → Text → Text
unfolding slug_loop trim_left trim_right
slugify to_lower trim_space name =
    trim_right (trim_left (slug_loop false false (to_lower (trim_space name))))

-- strconv.Itoa of a number of four digits.
unfoldable pub four_digits : ℕ → Text
four_digits n = (48 + n / 1000 % 10) ∷ (48 + n / 100 % 10) ∷ (48 + n / 10 % 10) ∷ (48 + n % 10) ∷ []

-- randSuffix, for an rand.Intn(9000)
unfoldable pub rand_suffix : ℕ → Text
unfolding four_digits
rand_suffix intn = four_digits (1000 + intn)

abbrev pub exit_prefix : Text
exit_prefix = 101 ∷ 120 ∷ 105 ∷ 116 ∷ 45 ∷ []

unfoldable pub derive_node_id :
    (to_lower trim_space : Text → Text) → (intn : ℕ) → (node_id name : Text) → Text
unfolding slugify rand_suffix
derive_node_id to_lower trim_space intn node_id name =
    if not (is_empty (trim_space node_id))
    then trim_space node_id
    else if not (is_empty (slugify to_lower trim_space name))
    then slugify to_lower trim_space name ++ hyphen ∷ rand_suffix intn
    else exit_prefix ++ rand_suffix intn
