-- ===== src/Base/Texts.antt =====
-- Tests on texts.
use Prim.Native.Char.{code}
use Prim.Native.Nat.{ℕ}
use Prim.Native.String.{String, [] as no_text, ◌∷◌ as ◌▸◌}
use text.Mathlib.Text.{◌==◌}
use text.Mathlib.TextEquality.{eq_iff}
use mathlib.Core.Bool.{Bool, true}
use mathlib.Core.List.{List, [], ◌∷◌}
use mathlib.Core.Path.{◌≡◌, refl}

abbrev pub same_text : String → String → Bool
same_text s t = s == t

pub same_text_refl : (s : String) → same_text s s ≡ true
same_text_refl s = (eq_iff s s).1 refl

pub same_text→eq : (s t : String) → same_text s t ≡ true → s ≡ t
same_text→eq s t h = (eq_iff s t).0 h

-- The code points of a text.
abbrev pub codes_of : String → List ℕ
codes_of no_text = []
codes_of (c ▸ s) = code c ∷ codes_of s
