-- ===== src/Base/Texts.antt =====
-- The functions of the strings package that the program calls, on texts as lists of characters.
use Prim.Native.Char.{Char, code}
use Prim.Native.String
use Prim.Native.String.{String}
use mathlib.Core.Bool.{Bool, true, false, ◌&&◌}
use mathlib.Core.Option.{Option, none, some}
use mathlib.Core.List.{List, [], ◌∷◌}
use grpcmcp.Base.Tests.{eqb, if◌then◌else◌}

infixr 65 ◌⧺◌
abbrev pub ◌⧺◌ : String → String → String
s ⧺ t = String.◌++◌ s t

-- strings.Join
abbrev pub join : String → List String → String
join sep [] = ""
join sep (s ∷ []) = s
join sep (s ∷ t ∷ rest) = s ⧺ sep ⧺ join sep (t ∷ rest)

-- strings.HasPrefix
abbrev pub has_prefix : String → String → Bool
has_prefix s String.[] = true
has_prefix String.[] (String.◌∷◌ c p) = false
has_prefix (String.◌∷◌ d s) (String.◌∷◌ c p) = eqb (code d) (code c) && has_prefix s p

-- what stands behind the prefix `p` of a text that has it
abbrev pub drop_prefix : String → String → String
drop_prefix s String.[] = s
drop_prefix String.[] (String.◌∷◌ c p) = String.[]
drop_prefix (String.◌∷◌ d s) (String.◌∷◌ c p) = drop_prefix s p

abbrev with_head : Char → Option (String × String) → Option (String × String)
with_head c none = none
with_head c (some (a, b)) = some (String.◌∷◌ c a, b)

-- strings.SplitN(s, sep, 2), if `sep` stands in the text
unfoldable pub cut : String → String → Option (String × String)
cut String.[] sep = if has_prefix String.[] sep then some (String.[], String.[]) else none
cut (String.◌∷◌ c s) sep =
    let rest = cut s sep in
    if has_prefix (String.◌∷◌ c s) sep
    then some (String.[], drop_prefix (String.◌∷◌ c s) sep)
    else with_head c rest

-- strings.Contains
abbrev pub contains_text : String → String → Bool
contains_text s sep = elim (cut s sep) [ none ↦ false | some _ ↦ true ]
