-- ===== src/Conf.antt =====
-- internal/conf/conf.go: settings from a file of key=value lines.
-- A text is the list of its bytes. The lines are those of bufio.Scanner, which ends with an error or
-- not; strings.TrimSpace and the flag package's parser of a flag's value are parameters.

pub mod Settings
mod Tests
use revquic.Prelude.{
  ℕ, suc, ◌+◌, ◌-◌, Bool, true, false, Option, none, some, List, [], ◌∷◌, ◌++◌, ◌==◌, ◌||◌, ◌&&◌,
  not, leb, length, take, drop, if◌then◌else◌,
}
use revquic.Prelude.Assoc.{Key, lookup, insert, bytes_key, bytes_eq}

abbrev pub Text : Type 0
Text = List ℕ

abbrev pub is_blank : Text → Bool
is_blank [] = true
is_blank (c ∷ s) = false

-- strings.HasPrefix for a prefix of one byte.
abbrev pub begins_with : ℕ → Text → Bool
begins_with c [] = false
begins_with c (d ∷ s) = d == c

-- strings.TrimPrefix for a prefix of one byte.
abbrev pub trim_prefix : ℕ → Text → Text
trim_prefix c [] = []
trim_prefix c (d ∷ s) = if d == c then s else d ∷ s

-- The text up to the first byte that passes a test and the text behind it, if there is one.
unfoldable pub split_at_first : (ℕ → Bool) → Text → Option (Text × Text)
split_at_first p [] = none
split_at_first p (c ∷ s) =
    let rest = split_at_first p s in
    if p c
    then some ([], s)
    else elim rest [ none ↦ none | some (before, after) ↦ some (c ∷ before, after) ]

-- '=', ' ' and '\t', '"', '\'', '#', ';', '-'
abbrev pub equals : ℕ
equals = 61

abbrev pub is_gap : ℕ → Bool
is_gap c = (c == 32) || (c == 9)

abbrev pub quote : ℕ
quote = 34

abbrev pub apostrophe : ℕ
apostrophe = 39

abbrev pub hash : ℕ
hash = 35

abbrev pub semicolon : ℕ
semicolon = 59

abbrev pub dash : ℕ
dash = 45

unfoldable pub split_kv : Text → Text × Text
unfolding split_at_first
split_kv line = elim (split_at_first (λ c. c == equals) line) [
  | some kv ↦ kv
  | none ↦ elim (split_at_first is_gap line) [ some kv ↦ kv | none ↦ (line, []) ]
]

-- The last byte, and the text before it.
unfoldable pub unsnoc : ℕ → Text → Text × ℕ
unsnoc c [] = ([], c)
unsnoc c (d ∷ s) = let (front, last) = unsnoc d s in (c ∷ front, last)

-- unquote: a text of two bytes or more that begins and ends with the same quotation mark.
unfoldable pub unquote : Text → Text
unfolding unsnoc
unquote [] = []
unquote (c ∷ []) = c ∷ []
unquote (c ∷ d ∷ s) =
    let (middle, last) = unsnoc d s in
    if ((c == quote) && (last == quote)) || ((c == apostrophe) && (last == apostrophe))
    then middle
    else c ∷ d ∷ s

-- A flag that takes no value is a Boolean one.
pub record Flag : Type 0 where
  pub is_bool : Bool

pub data ConfError : Type 0 where
  missing_key : ℕ → ConfError
  unknown_key set_failed : ℕ → Text → ConfError
  scan_failed : ConfError

pub record Flags : Type 0 where
  pub defined : List (Text × Flag)
  pub on_cli : List (Text × Bool)
  pub trim_space : Text → Text
  pub accepts : Text → Text → Bool

module _ (fs : Flags) where
  -- The value that a line sets, once its quotes are gone.
  unfoldable pub value_of : Flag → Text → Text
  unfolding unquote
  value_of fl raw =
      let v = unquote (fs.trim_space raw) in
      if is_blank v && fl.is_bool then 116 ∷ 114 ∷ 117 ∷ 101 ∷ [] else v

  -- The setting of a key, on the line `ln`.
  unfoldable pub apply_setting :
      ℕ → (key raw_val : Text) → List (Text × Text) → List (Text × Text) × Option ConfError
  unfolding value_of
  apply_setting ln key raw_val values =
      if is_blank key then (values, some (missing_key ln)) else elim (lookup key fs.defined) [
        | none ↦ (values, some (unknown_key ln key))
        | some fl ↦ elim (lookup key fs.on_cli) [
          | some _ ↦ (values, none)
          | none ↦
              if fs.accepts key (value_of fl raw_val)
              then (insert key (value_of fl raw_val) values, none)
              else (values, some (set_failed ln key))
        ]
      ]

  unfoldable pub trim_key : Text → Text
  trim_key raw_key = fs.trim_space (trim_prefix dash (fs.trim_space raw_key))

  -- One line, trimmed, with the number `ln`.
  unfoldable pub apply_line : ℕ → Text → List (Text × Text) → List (Text × Text) × Option ConfError
  unfolding split_kv trim_key apply_setting
  apply_line ln line values =
      if is_blank line || begins_with hash line || begins_with semicolon line
      then (values, none)
      else apply_setting ln (trim_key (split_kv line).0) (split_kv line).1 values

  -- The loop of ApplyFile from the line after `ln`, and sc.Err() at its end.
  unfoldable pub apply_lines :
      ℕ → List Text → (scan_ok : Bool) → List (Text × Text) → List (Text × Text) × Option ConfError
  unfolding apply_line
  apply_lines ln [] true values = (values, none)
  apply_lines ln [] false values = (values, some scan_failed)
  apply_lines ln (line ∷ lines) scan_ok values =
      let (values', e) = apply_line (suc ln) (fs.trim_space line) values in
      let rest = apply_lines (suc ln) lines scan_ok values' in
      elim e [ some err ↦ (values', some err) | none ↦ rest ]
