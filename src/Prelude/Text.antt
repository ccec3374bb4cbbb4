-- ===== src/Prelude/Text.antt =====
-- Texts as lists of character codes: `std::string` holds one number for each of its bytes.
use Prim.Native.Char.{code}
use Prim.Native.String.{String}
use Prim.Native.Nat.{ℕ}
use mathlib.Core.Path.{◌≡◌, refl}
use mathlib.Core.Logic.{◌↔◌}
use mathlib.Core.Bool.{Bool, true, false, ◌&&◌}
use mathlib.Core.List.{List, [], ◌∷◌}
use native.Mathlib.Omega.{arith}
use kierki_sik.Prelude.Tests.{◌==◌, ltb, if◌then◌else◌}
use kierki_sik.Prelude.Lists.{take, drop}

abbrev pub Bytes : Type 0
Bytes = List ℕ

-- The codes of an ASCII literal.
abbrev pub codes : String → Bytes
codes String.[] = []
codes (String.◌∷◌ c s) = code c ∷ codes s

-- `operator==` of two strings.
unfoldable pub same : Bytes → Bytes → Bool
same [] [] = true
same [] (d ∷ t) = false
same (c ∷ s) [] = false
same (c ∷ s) (d ∷ t) = c == d && same s t

pub same_iff : (s t : Bytes) → (same s t ≡ true) ↔ (s ≡ t)
unfolding same
same_iff [] [] = ((λ _. refl), (λ _. refl))
same_iff [] (d ∷ t) = ((λ h. cc), (λ h. cc))
same_iff (c ∷ s) [] = ((λ h. cc), (λ h. cc))
same_iff (c ∷ s) (d ∷ t) =
    ((λ h. ground (arith, same_iff s t)), (λ h. ground (arith, same_iff s t)))

-- `operator<` of two strings, as `std::map` orders its keys.
unfoldable pub before : Bytes → Bytes → Bool
before s [] = false
before [] (d ∷ t) = true
before (c ∷ s) (d ∷ t) = if ltb c d then true else c == d && before s t

-- `s.substr(i, n)` at a position within the text.
abbrev pub substr : Bytes → ℕ → ℕ → Bytes
substr s i n = take n (drop i s)

-- `s[s.size() - 1]`; the empty text gives 0, the terminator that `operator[]` reads there.
unfoldable pub last_char : Bytes → ℕ
last_char [] = 0
last_char (c ∷ []) = c
last_char (c ∷ d ∷ s) = last_char (d ∷ s)
