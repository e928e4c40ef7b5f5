-- ===== src/Prelude/Text.antt =====
-- Texts: Go's `strings.Split` at a one-byte separator, and membership in a list of texts.
use Prim.Native.Nat.{ℕ}
use Prim.Native.Char.{Char, code}
use Prim.Native.String
use Prim.Native.String.{String}
use mathlib.Core.Bool.{Bool, false, ◌||◌}
use mathlib.Core.List.{List, [], ◌∷◌}
use text.Mathlib.Text.{◌==◌}
use intelligent_workflows.Prelude.Tests.{nat_eq, if◌then◌else◌}

-- Puts a character in front of the first part.
abbrev pub push_front : Char → List String → List String
push_front c [] = String.◌∷◌ c String.[] ∷ []
push_front c (s ∷ ss) = String.◌∷◌ c s ∷ ss

-- `strings.Split(s, sep)` where `sep` is the one character with the code `sep`.
unfoldable pub split : ℕ → String → List String
split sep String.[] = String.[] ∷ []
split sep (String.◌∷◌ c s) =
    let rest = split sep s in if nat_eq (code c) sep then String.[] ∷ rest else push_front c rest

abbrev pub member : String → List String → Bool
member s [] = false
member s (t ∷ ts) = (s == t) || member s ts

-- Texts one after the other, as `fmt.Errorf` puts its arguments between the parts of a format.
abbrev pub concat : List String → String
concat [] = String.[]
concat (s ∷ ss) = String.◌++◌ s (concat ss)

-- `strings.Join(ss, sep)`
abbrev pub join_with : String → List String → String
join_with sep [] = String.[]
join_with sep (s ∷ []) = s
join_with sep (s ∷ t ∷ ss) = String.◌++◌ s (String.◌++◌ sep (join_with sep (t ∷ ss)))
