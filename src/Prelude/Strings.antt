-- ===== src/Prelude/Strings.antt =====
-- Equality of strings as a Boolean test.
use Prim.Native.String.{String}
use text.Mathlib.Text.{◌==◌}
use text.Mathlib.TextEquality.{eq_iff}
use mathlib.Core.Path.{◌≡◌, refl}
use mathlib.Core.Logic.{◌≢◌}
use mathlib.Core.Bool.{Bool, true, false}

unfoldable pub equals : String → String → Bool
equals s t = s == t

module _ (s t : String) where
  pub equals_sound : equals s t ≡ true → s ≡ t
  unfolding equals
  equals_sound h = (eq_iff s t).0 h

  pub equals_complete : s ≡ t → equals s t ≡ true
  unfolding equals
  equals_complete h = (eq_iff s t).1 h

  pub equals_differ : s ≢ t → equals s t ≡ false
  equals_differ h = decided (equals s t) refl
    where
      decided : (b : Bool) → equals s t ≡ b → equals s t ≡ false
      decided true e = absurd (h (equals_sound e))
      decided false e = e
