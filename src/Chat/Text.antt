-- ===== src/Chat/Text.antt =====
-- `strings.TrimSpace(s) == ""`, for the characters that `unicode.IsSpace` takes for spaces.
use Prim.Native.String.{String, [], ◌∷◌}
use Prim.Native.Char.{code}
use slps_team.Prelude.{ℕ, Bool, true, ◌&&◌, ◌||◌, ◌==◌, leb}

abbrev pub is_space : ℕ → Bool
is_space c =
    (leb 9 c && leb c 13)
    || c == 32
    || c == 133
    || c == 160
    || c == 5760
    || (leb 8192 c && leb c 8202)
    || c == 8232
    || c == 8233
    || c == 8239
    || c == 8287
    || c == 12288

unfoldable pub is_blank : String → Bool
is_blank [] = true
is_blank (c ∷ s) = is_space (code c) && is_blank s
