-- ===== src/Conf/Tests.antt =====
-- A file with a broker address and a name, for a command line that has set the name.
use revquic.Prelude.{◌≡◌, refl, true, false, none, some, [], ◌∷◌, ◌==◌, map, if◌then◌else◌}
use revquic.Prelude.Assoc.{lookup, insert, bytes_key}
use revquic.Conf.{
  Text, Flags, unknown_key, split_at_first, split_kv, unsnoc, unquote, value_of, trim_key,
  apply_setting, apply_line, apply_lines,
}
use revquic.Conf.Settings.{written, set_all, IsSetting, apply_lines-written}

abbrev b_key : Text
b_key = 98 ∷ []

abbrev n_key : Text
n_key = 110 ∷ []

-- Spaces go at the left only, which is enough for these lines.
abbrev trim : Text → Text
trim [] = []
trim (c ∷ s) = let rest = trim s in if c == 32 then rest else c ∷ s

abbrev flags : Flags
flags = record {
  defined = (b_key, record { is_bool = false }) ∷ (n_key, record { is_bool = true }) ∷ [];
  on_cli = (n_key, true) ∷ [];
  trim_space = trim;
  accepts = λ key v. true;
}

abbrev host : Text
host = 104 ∷ 49 ∷ []

-- b "h1", then n, then an unknown key: the value without its quotes, nothing for n, and the error.
mixed :
    apply_lines flags 0
      ((32 ∷ 98 ∷ 32 ∷ 34 ∷ 104 ∷ 49 ∷ 34 ∷ []) ∷ (35 ∷ []) ∷ n_key ∷ (122 ∷ 61 ∷ []) ∷ [])
      true
      []
    ≡ ((b_key, host) ∷ [], some (unknown_key 4 (122 ∷ [])))
unfolding apply_lines apply_line apply_setting trim_key value_of unquote unsnoc split_kv
    split_at_first lookup insert
mixed = refl

name_given : lookup n_key flags.on_cli ≡ some true
unfolding lookup
name_given = refl

host-IsSetting : IsSetting flags (b_key, host)
unfolding written split_at_first lookup
host-IsSetting = record {
  key = record { full = refl; plain = refl; no_hash = refl; no_semicolon = refl; no_dash = refl };
  value = refl;
  key_trimmed = refl;
  line_trimmed = refl;
  value_trimmed = refl;
  flag = record { is_bool = false };
  defined = refl;
  free = refl;
  accepted = refl;
}

apply_lines-written_example :
    apply_lines flags 0 (map written ((b_key, host) ∷ [])) true []
    ≡ (set_all ((b_key, host) ∷ []) [], none)
apply_lines-written_example =
    apply_lines-written flags 0 ((b_key, host) ∷ []) [] (host-IsSetting, tt)
