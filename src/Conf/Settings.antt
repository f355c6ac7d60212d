-- ===== src/Conf/Settings.antt =====
-- What a file of internal/conf/conf.go sets, and what it leaves alone.
use revquic.Prelude.{
  ℕ, suc, ◌≡◌, ◌⊎◌, refl, sym, ap, ◌∙◌, inl, inr, Bool, true, false, none, some, List, [], ◌∷◌,
  ◌++◌, ◌==◌, ◌||◌, arith, All, map, Bool-cases, Option-cases, none_ne,
}
use revquic.Prelude.Assoc.{lookup, insert, lookup-insert, bytes_key, bytes_eq, bytes_eq_iff}
use revquic.Conf.{
  Text, Flag, Flags, is_blank, begins_with, trim_prefix, split_at_first, split_kv, unsnoc, unquote,
  value_of, trim_key, apply_setting, apply_line, apply_lines, equals, quote, hash, semicolon, dash,
}

module _ (fs : Flags) where
  -- A flag that a file cannot set: one that the command line has set, or that is not defined.
  abbrev pub IsOutOfReach : Text → Type 0
  IsOutOfReach key =
      ((seen : Bool) × (lookup key fs.on_cli ≡ some seen)) ⊎ (lookup key fs.defined ≡ none)

  -- A flag that a line does set is not such a flag.
  other :
      (k key : Text) (fl : Flag)
      → IsOutOfReach key
      → lookup k fs.defined ≡ some fl
      → lookup k fs.on_cli ≡ none
      → bytes_eq k key ≡ false
  other k key fl out defined absent = elim (Bool-cases (bytes_eq k key)) [
    | inr apart ↦ apart
    | inl same ↦
        let eq = (bytes_eq_iff k key).0 same in
        elim out [
          | inl (seen, given) ↦
              elim (none_ne (sym absent ∙ ap (λ x. lookup x fs.on_cli) eq ∙ given)) [ ]
          | inr unknown ↦
              elim (none_ne (sym unknown ∙ ap (λ x. lookup x fs.defined) (sym eq) ∙ defined)) [ ]
        ]
  ]

  apply_setting_keeps :
      (ln : ℕ) (k raw key : Text) (values : List (Text × Text))
      → IsOutOfReach key
      → lookup key (apply_setting fs ln k raw values).0 ≡ lookup key values
  unfolding apply_setting
  apply_setting_keeps ln k raw key values out = elim (Bool-cases (is_blank k)) [
    | inl blank ↦ rw (apply_setting, blank) refl
    | inr named ↦ elim (Option-cases (lookup k fs.defined)) [
      | inl unknown ↦ rw (apply_setting, named, unknown) refl
      | inr (fl, defined) ↦ elim (Option-cases (lookup k fs.on_cli)) [
        | inr (seen, given) ↦ rw (apply_setting, named, defined, given) refl
        | inl absent ↦
            let v = value_of fs fl raw in
            elim (Bool-cases (fs.accepts k v)) [
              | inr refused ↦ rw (apply_setting, named, defined, absent, refused) refl
              | inl taken ↦
                  rw (apply_setting, named, defined, absent, taken)
                    (rw (lookup-insert k key v values, other k key fl out defined absent) refl)
            ]
      ]
    ]
  ]

  apply_line_keeps :
      (ln : ℕ) (line key : Text) (values : List (Text × Text))
      → IsOutOfReach key
      → lookup key (apply_line fs ln line values).0 ≡ lookup key values
  unfolding apply_line
  apply_line_keeps ln line key values out =
      elim (Bool-cases (is_blank line || begins_with hash line || begins_with semicolon line)) [
        | inl comment ↦ rw (apply_line, comment) refl
        | inr setting ↦
            rw (apply_line, setting)
              (apply_setting_keeps ln (trim_key fs (split_kv line).0) (split_kv line).1 key values
                out)
      ]

  -- Whatever a file says, and also where it fails half-way, a flag that the command line has set and
  -- a name that is no flag keep what they had.
  pub apply_lines_keeps :
      (ln : ℕ) (lines : List Text) (scan_ok : Bool) (values : List (Text × Text)) (key : Text)
      → IsOutOfReach key
      → lookup key (apply_lines fs ln lines scan_ok values).0 ≡ lookup key values
  unfolding apply_lines
  apply_lines_keeps ln [] true values key out = refl
  apply_lines_keeps ln [] false values key out = refl
  apply_lines_keeps ln (line ∷ lines) scan_ok values key out =
      let text = fs.trim_space line in
      let kept = apply_line_keeps (suc ln) text key values out in
      elim (Option-cases (apply_line fs (suc ln) text values).1) [
        | inr (e, failed) ↦ rw (apply_lines, failed) kept
        | inl fine ↦
            rw (apply_lines, fine)
              (apply_lines_keeps (suc ln) lines scan_ok (apply_line fs (suc ln) text values).0 key
                  out
                ∙ kept)
      ]

-- key="value"
unfoldable pub written : Text × Text → Text
written (k, v) = k ++ equals ∷ quote ∷ (v ++ quote ∷ [])

-- The flags after some settings, the last one of a key on top.
pub set_all : List (Text × Text) → List (Text × Text) → List (Text × Text)
set_all [] values = values
set_all ((k, v) ∷ settings) values = set_all settings (insert k v values)

-- A key without an equals sign, which is not empty and does not begin like a comment or an option.
pub record IsKey (k : Text) : Type 0 where
  pub full : is_blank k ≡ false
  pub plain : split_at_first (λ c. c == equals) k ≡ none
  pub no_hash : begins_with hash k ≡ false
  pub no_semicolon : begins_with semicolon k ≡ false
  pub no_dash : begins_with dash k ≡ false

split_written :
    (k rest : Text)
    → split_at_first (λ c. c == equals) k ≡ none
    → split_at_first (λ c. c == equals) (k ++ equals ∷ rest) ≡ some (k, rest)
unfolding split_at_first
split_written [] rest h = refl
split_written (c ∷ k) rest h = ground (arith, split_written k rest)

unsnoc-append : (c : ℕ) (v : Text) (last : ℕ) → unsnoc c (v ++ last ∷ []) ≡ (c ∷ v, last)
unfolding unsnoc
unsnoc-append c [] last = refl
unsnoc-append c (d ∷ v) last = rw (unsnoc-append d v last, unsnoc) refl

unquote_quoted : (v : Text) → unquote (quote ∷ (v ++ quote ∷ [])) ≡ v
unfolding unquote
unquote_quoted [] = refl
unquote_quoted (d ∷ v) = rw (unsnoc-append d v quote) refl

not_comment :
    (k v : Text)
    → IsKey k
    → (is_blank (written (k, v))
        || begins_with hash (written (k, v))
        || begins_with semicolon (written (k, v)))
      ≡ false
unfolding written
not_comment [] v key = refl
not_comment (c ∷ k) v key = ground (arith, key.no_hash, key.no_semicolon)

split_kv-written :
    (k v : Text) → IsKey k → split_kv (written (k, v)) ≡ (k, quote ∷ (v ++ quote ∷ []))
unfolding split_kv written
split_kv-written k v key = rw (split_kv, split_written k (quote ∷ (v ++ quote ∷ [])) key.plain) refl

keep_prefix : (k : Text) → IsKey k → trim_prefix dash k ≡ k
keep_prefix [] key = refl
keep_prefix (c ∷ k) key = ground (arith, key.no_dash)

module _ (fs : Flags) where
  -- A setting for a flag that a file may set, where TrimSpace has nothing to take away.
  pub record IsSetting (kv : Text × Text) : Type 0 where
    pub key : IsKey kv.0
    pub value : is_blank kv.1 ≡ false
    pub key_trimmed : fs.trim_space kv.0 ≡ kv.0
    pub line_trimmed : fs.trim_space (written kv) ≡ written kv
    pub value_trimmed : fs.trim_space (quote ∷ (kv.1 ++ quote ∷ [])) ≡ quote ∷ (kv.1 ++ quote ∷ [])
    pub flag : Flag
    pub defined : lookup kv.0 fs.defined ≡ some flag
    pub free : lookup kv.0 fs.on_cli ≡ none
    pub accepted : fs.accepts kv.0 kv.1 ≡ true

  value_of_quoted :
      (v : Text) (fl : Flag)
      → fs.trim_space (quote ∷ (v ++ quote ∷ [])) ≡ quote ∷ (v ++ quote ∷ [])
      → is_blank v ≡ false
      → value_of fs fl (quote ∷ (v ++ quote ∷ [])) ≡ v
  unfolding value_of
  value_of_quoted v fl trimmed full = rw (value_of, trimmed, unquote_quoted v, full) refl

  trim_key_plain : (k : Text) → IsKey k → fs.trim_space k ≡ k → trim_key fs k ≡ k
  unfolding trim_key
  trim_key_plain k key trimmed = rw (trim_key, trimmed, keep_prefix k key) trimmed

  apply_setting_written :
      (ln : ℕ) (k v : Text) (values : List (Text × Text))
      → IsSetting (k, v)
      → apply_setting fs ln k (quote ∷ (v ++ quote ∷ [])) values ≡ (insert k v values, none)
  unfolding apply_setting
  apply_setting_written ln k v values s =
      rw
        (
          apply_setting,
          s.key.full,
          s.defined,
          s.free,
          value_of_quoted v s.flag s.value_trimmed s.value,
          s.accepted,
        )
        refl

  apply_written :
      (ln : ℕ) (k v : Text) (values : List (Text × Text))
      → IsSetting (k, v)
      → apply_line fs ln (written (k, v)) values ≡ (insert k v values, none)
  unfolding apply_line
  apply_written ln k v values s =
      rw (apply_line, not_comment k v s.key)
        (ap (λ kv. apply_setting fs ln (trim_key fs kv.0) kv.1 values) (split_kv-written k v s.key)
          ∙ ap (λ key. apply_setting fs ln key (quote ∷ (v ++ quote ∷ [])) values)
              (trim_key_plain k s.key s.key_trimmed)
          ∙ apply_setting_written ln k v values s)

  apply_lines_step :
      (ln : ℕ) (line : Text) (lines : List Text) (ok : Bool) (values after : List (Text × Text))
      → apply_line fs (suc ln) (fs.trim_space line) values ≡ (after, none)
      → apply_lines fs ln (line ∷ lines) ok values ≡ apply_lines fs (suc ln) lines ok after
  unfolding apply_lines
  apply_lines_step ln line lines ok values after h =
      ap
        (λ r. elim r.1 [ some err ↦ (r.0, some err) | none ↦ apply_lines fs (suc ln) lines ok r.0 ])
        h

  -- A file that writes settings as key="value" lines sets exactly these, each flag to the last value
  -- that it is given, and no error is reported.
  pub apply_lines-written :
      (ln : ℕ) (settings values : List (Text × Text))
      → All IsSetting settings
      → apply_lines fs ln (map written settings) true values ≡ (set_all settings values, none)
  unfolding apply_lines set_all
  apply_lines-written ln [] values h = refl
  apply_lines-written ln ((k, v) ∷ settings) values (s, h) =
      apply_lines_step ln (written (k, v)) (map written settings) true values (insert k v values) (
        ap (λ l. apply_line fs (suc ln) l values) s.line_trimmed
        ∙ apply_written (suc ln) k v values s)
      ∙ apply_lines-written (suc ln) settings (insert k v values) h
