-- ===== src/Prelude/Text.antt =====
-- Go's order on strings, by the first character that differs (for UTF-8 the order of the bytes).
use Prim.Native.Char.{code}
use Prim.Native.String.{String}
use revquic.Prelude.{Bool, true, false, ltb, if◌then◌else◌}

-- s < t
unfoldable pub text_less : String → String → Bool
text_less s String.[] = false
text_less String.[] (String.◌∷◌ d t) = true
text_less (String.◌∷◌ c s) (String.◌∷◌ d t) =
    let rest = text_less s t in
    if ltb (code c) (code d) then true else if ltb (code d) (code c) then false else rest
