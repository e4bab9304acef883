-- ===== src/Schema/Enums/Admitted.antt =====
-- What the members of `anyOf` admit, one behind another.
use Prim.Native.String.{String}
use grpcmcp.Base.{◌≡◌, refl, ap, Bool, false, ◌||◌, List, [], ◌∷◌, ◌++◌, map, arith, ◌==◌, contains}
use grpcmcp.Base.Int.{ℤ}
use grpcmcp.Schema.Keywords.{Keywords, accepts, accepts_one}
use grpcmcp.Schema.Enums.{Selector, EnumMember, hidden_name, names, numbers, hidden_names, if_any}

-- the JSON integer `z` is valid against a member of `anyOf`, and so the text `s`; the pattern of a
-- hidden name matches that name
abbrev pub admits_number : List EnumMember → ℤ → Bool
admits_number [] z = false
admits_number (hidden_name n ∷ ms) z = admits_number ms z
admits_number (names ns ∷ ms) z = admits_number ms z
admits_number (numbers k ∷ ms) z = accepts k z || admits_number ms z

abbrev pub admits_text : List EnumMember → String → Bool
admits_text [] s = false
admits_text (hidden_name n ∷ ms) s = n == s || admits_text ms s
admits_text (names ns ∷ ms) s = contains ns s || admits_text ms s
admits_text (numbers k ∷ ms) s = admits_text ms s

admits_number-append :
    (ms ns : List EnumMember) (z : ℤ)
    → admits_number (ms ++ ns) z ≡ (admits_number ms z || admits_number ns z)
admits_number-append [] ns z = refl
admits_number-append (hidden_name n ∷ ms) ns z = admits_number-append ms ns z
admits_number-append (names n ∷ ms) ns z = admits_number-append ms ns z
admits_number-append (numbers k ∷ ms) ns z = ground (arith, admits_number-append ms ns z)

admits_number-hidden_names :
    (hide : Bool) (ss : List Selector) (z : ℤ) → admits_number (hidden_names hide ss) z ≡ false
unfolding hidden_names
admits_number-hidden_names hide [] z = refl
admits_number-hidden_names hide (s ∷ ss) z = ground (arith, admits_number-hidden_names hide ss z)

admits_number-if_any : (ns : List String) (z : ℤ) → admits_number (if_any ns) z ≡ false
admits_number-if_any [] z = refl
admits_number-if_any (n ∷ ns) z = refl

pub admits_number-numbers :
    (ks : List Keywords) (z : ℤ) → admits_number (map numbers ks) z ≡ accepts_one ks z
admits_number-numbers [] z = refl
admits_number-numbers (k ∷ ks) z = ap (λ b. accepts k z || b) (admits_number-numbers ks z)

admits_text-append :
    (ms ns : List EnumMember) (s : String)
    → admits_text (ms ++ ns) s ≡ (admits_text ms s || admits_text ns s)
admits_text-append [] ns s = refl
admits_text-append (hidden_name n ∷ ms) ns s = ground (arith, admits_text-append ms ns s)
admits_text-append (names n ∷ ms) ns s = ground (arith, admits_text-append ms ns s)
admits_text-append (numbers k ∷ ms) ns s = admits_text-append ms ns s

admits_text-if_any : (ns : List String) (s : String) → admits_text (if_any ns) s ≡ contains ns s
unfolding contains
admits_text-if_any [] s = refl
admits_text-if_any (n ∷ ns) s = ground arith

pub admits_text-numbers : (ks : List Keywords) (s : String) → admits_text (map numbers ks) s ≡ false
admits_text-numbers [] s = refl
admits_text-numbers (k ∷ ks) s = admits_text-numbers ks s

-- the names in front of the numbers
pub number-members :
    (hide : Bool) (ss : List Selector) (ns : List String) (ms : List EnumMember) (z : ℤ)
    → admits_number (hidden_names hide ss ++ (if_any ns ++ ms)) z ≡ admits_number ms z
number-members hide ss ns ms z = ground (
  arith,
  admits_number-append (hidden_names hide ss) (if_any ns ++ ms) z,
  admits_number-hidden_names hide ss z,
  admits_number-append (if_any ns) ms z,
  admits_number-if_any ns z,
)

pub text-members :
    (hide : Bool) (ss : List Selector) (ns : List String) (ms : List EnumMember) (s : String)
    → admits_text ms s ≡ false
    → admits_text (hidden_names hide ss ++ (if_any ns ++ ms)) s
      ≡ (admits_text (hidden_names hide ss) s || contains ns s)
text-members hide ss ns ms s h = ground (
  arith,
  admits_text-append (hidden_names hide ss) (if_any ns ++ ms) s,
  admits_text-append (if_any ns) ms s,
  admits_text-if_any ns s,
)
