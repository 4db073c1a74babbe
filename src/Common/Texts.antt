-- ===== src/Common/Texts.antt =====
-- JavaScript strings as lists of code units, with the ASCII part of `toLowerCase`.
use Prim.Native.Nat.{ℕ, ◌+◌}
use Prim.Native.Char.{code}
use Prim.Native.String.{String}
use mathlib.Core.Path.{◌≡◌}
use mathlib.Core.Logic.{◌↔◌}
use mathlib.Core.Bool.{Bool, true, false, ◌&&◌}
use mathlib.Core.List.{List, [], ◌∷◌}
use native.Mathlib.Omega.{arith}
use web3_js.Common.Tests.{leb, nat_eq, nat_eq_iff, if◌then◌else◌, SameValue}

abbrev pub Text : Type 0
Text = List ℕ

abbrev pub codes : String → Text
codes String.[] = []
codes (String.◌∷◌ c s) = code c ∷ codes s

abbrev pub between : ℕ → ℕ → ℕ → Bool
between low high c = leb low c && leb c high

abbrev pub lower : ℕ → ℕ
lower c = if between 65 90 c then c + 32 else c

abbrev pub to_lower_case : Text → Text
to_lower_case [] = []
to_lower_case (c ∷ s) = lower c ∷ to_lower_case s

abbrev pub text_same : Text → Text → Bool
text_same [] [] = true
text_same (a ∷ s) (b ∷ t) = nat_eq a b && text_same s t
text_same _ _ = false

pub text_same_iff : (s t : Text) → (text_same s t ≡ true) ↔ (s ≡ t)
text_same_iff [] [] = ground arith
text_same_iff [] (b ∷ t) = ground arith
text_same_iff (a ∷ s) [] = ground arith
text_same_iff (a ∷ s) (b ∷ t) = ground (arith, text_same_iff s t, nat_eq_iff a b)

instance abbrev pub text_same_instance : SameValue Text
text_same_instance = record { same = text_same; same_iff = text_same_iff }
