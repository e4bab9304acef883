-- ===== src/Schema/Enums/Selected.antt =====
-- The names and integers that the schema of an enum field admits, beside those that the rules allow.
use Prim.Native.String.{String}
use grpcmcp.Base.{
  ◌≡◌, refl, ◌∙◌, ap, inl, inr, Bool, true, false, not, ◌&&◌, ◌||◌, Option, none, some, List, [],
  ◌∷◌, map, arith, if◌then◌else◌, Bool-cases, ◌==◌, contains,
}
use grpcmcp.Base.Int.{ℤ, pos, leb_ℤ, eqb_ℤ, eq_of_eqb_ℤ}
use grpcmcp.Schema.Keywords.{accepts_one, mem_ℤ}
use grpcmcp.Schema.Rules.{const_ok, in_ok}
use grpcmcp.Schema.Fields.{EnumRules, EnumValue}
use grpcmcp.Schema.Enums.{
  Selector, selectors, remove_if, apply_const, apply_in, apply_not_in, kept_numbers, enum_numbers,
  apply_rules, is_closed, numbers, hidden_names, kept_names, enum_any_of, int32_min, int32_max,
  any_int32, nonzero_int32,
}
use grpcmcp.Schema.Enums.Exact.{enum_int32_validation-accepts}
use grpcmcp.Schema.Enums.Admitted.{
  admits_number, admits_text, admits_number-numbers, admits_text-numbers, number-members,
  text-members,
}

-- a value of this number is declared
abbrev pub is_declared : List EnumValue → ℤ → Bool
is_declared [] z = false
is_declared (v ∷ vs) z = eqb_ℤ z v.number || is_declared vs z

-- What protovalidate documents of a number: no zero where a value is required, and the const, in and
-- not_in rules.
abbrev pub enum_allows : EnumRules → Bool → ℤ → Bool
enum_allows r allow_zero z =
    (allow_zero || not (eqb_ℤ z (pos 0)))
    && const_ok r.const z
    && in_ok r.within z
    && not (mem_ℤ z r.not_in)

-- a declared value has this name, and a number of which the test holds
abbrev pub is_named : (ℤ → Bool) → List EnumValue → String → Bool
is_named ok [] s = false
is_named ok (v ∷ vs) s = v.name == s && ok v.number || is_named ok vs s

-- the values, those of which the test holds being removed
abbrev marked : (ℤ → Bool) → List EnumValue → List Selector
marked test [] = []
marked test (v ∷ vs) =
    record { remove = test v.number; number = v.number; name = v.name } ∷ marked test vs

marked_ext :
    (t u : ℤ → Bool) → ((z : ℤ) → t z ≡ u z) → (vs : List EnumValue) → marked t vs ≡ marked u vs
marked_ext t u h [] = refl
marked_ext t u h (v ∷ vs) = cc (h v.number, marked_ext t u h vs)

remove_if-marked :
    (test t : ℤ → Bool) (vs : List EnumValue)
    → remove_if test (marked t vs) ≡ marked (λ z. t z || test z) vs
unfolding remove_if
remove_if-marked test t [] = refl
remove_if-marked test t (v ∷ vs) = cc (remove_if-marked test t vs)

selectors-marked :
    (allow_zero : Bool) (vs : List EnumValue)
    → selectors allow_zero vs ≡ marked (λ z. not allow_zero && eqb_ℤ z (pos 0)) vs
unfolding selectors
selectors-marked allow_zero [] = refl
selectors-marked allow_zero (v ∷ vs) = cc (selectors-marked allow_zero vs)

const-marked :
    (c : Option ℤ) (t : ℤ → Bool) (vs : List EnumValue)
    → apply_const c (marked t vs) ≡ marked (λ z. t z || not (const_ok c z)) vs
unfolding apply_const
const-marked none t vs = marked_ext t _ (λ z. ground arith) vs
const-marked (some c) t vs = remove_if-marked _ t vs

in-marked :
    (ys : List ℤ) (t : ℤ → Bool) (vs : List EnumValue)
    → apply_in ys (marked t vs) ≡ marked (λ z. t z || not (in_ok ys z)) vs
unfolding apply_in
in-marked [] t vs = marked_ext t _ (λ z. ground arith) vs
in-marked (y ∷ ys) t vs = remove_if-marked _ t vs

not_in-marked :
    (ys : List ℤ) (t : ℤ → Bool) (vs : List EnumValue)
    → apply_not_in ys (marked t vs) ≡ marked (λ z. t z || mem_ℤ z ys) vs
unfolding apply_not_in
not_in-marked [] t vs = marked_ext t _ (λ z. ground arith) vs
not_in-marked (y ∷ ys) t vs = remove_if-marked _ t vs

apply_rules-marked :
    (r : EnumRules) (allow_zero : Bool) (vs : List EnumValue)
    → apply_rules r allow_zero vs ≡ marked (λ z. not (enum_allows r allow_zero z)) vs
unfolding apply_rules
apply_rules-marked r allow_zero vs =
    ap (λ l. apply_not_in r.not_in (apply_in r.within (apply_const r.const l)))
      (selectors-marked allow_zero vs)
    ∙ ap (λ l. apply_not_in r.not_in (apply_in r.within l)) (const-marked r.const _ vs)
    ∙ ap (apply_not_in r.not_in) (in-marked r.within _ vs)
    ∙ not_in-marked r.not_in _ vs
    ∙ marked_ext _ _ (λ z. ground arith) vs

mem-kept_numbers :
    (ok : ℤ → Bool) (vs : List EnumValue) (z : ℤ)
    → mem_ℤ z (kept_numbers (marked (λ y. not (ok y)) vs)) ≡ (is_declared vs z && ok z)
unfolding kept_numbers
mem-kept_numbers ok [] z = refl
mem-kept_numbers ok (v ∷ vs) z = elim (Bool-cases (eqb_ℤ z v.number)) [
  | inl same ↦ ground (arith, mem-kept_numbers ok vs z, ap ok (eq_of_eqb_ℤ z v.number same))
  | inr other ↦ ground (arith, mem-kept_numbers ok vs z)
]

-- a name is offered, or hidden, or removed
names-marked :
    (ok : ℤ → Bool) (hide : Bool) (vs : List EnumValue) (s : String)
    → (admits_text (hidden_names hide (marked (λ z. not (ok z)) vs)) s
        || contains (kept_names hide (marked (λ z. not (ok z)) vs)) s)
      ≡ is_named ok vs s
unfolding hidden_names kept_names contains
names-marked ok hide [] s = refl
names-marked ok hide (v ∷ vs) s = ground (arith, names-marked ok hide vs s)

-- the integers that the schema admits: the allowed ones among the declared, if the rules name the
-- values, and else every int32, but zero where a value is required
abbrev pub number_allowed : EnumRules → Bool → List EnumValue → ℤ → Bool
number_allowed r allow_zero vs z =
    if is_closed r
    then is_declared vs z && enum_allows r allow_zero z
    else leb_ℤ int32_min z && leb_ℤ z int32_max && (allow_zero || not (eqb_ℤ z (pos 0)))

other_numbers :
    (b : Bool) (z : ℤ)
    → accepts_one (if b then any_int32 else nonzero_int32) z
      ≡ (leb_ℤ int32_min z && leb_ℤ z int32_max && (b || not (eqb_ℤ z (pos 0))))
other_numbers true z = ground arith
other_numbers false z = ground arith

numbers-marked :
    (r : EnumRules) (allow_zero : Bool) (vs : List EnumValue) (z : ℤ)
    → accepts_one (enum_numbers r allow_zero (marked (λ y. not (enum_allows r allow_zero y)) vs)) z
      ≡ number_allowed r allow_zero vs z
unfolding enum_numbers
numbers-marked r allow_zero vs z = elim (Bool-cases (is_closed r)) [
  | inl closed ↦
      rw closed
        (enum_int32_validation-accepts _ z ∙ mem-kept_numbers (enum_allows r allow_zero) vs z)
  | inr open_set ↦ rw open_set (other_numbers allow_zero z)
]

-- The schema of an enum field admits the name of each declared value that the rules allow and no other
-- text. It admits an integer, if it is not strict, exactly if the rules allow it and it is declared,
-- where they give a const, a list or only declared values; and else if it is an int32, and not zero
-- where a value is required.
pub enum_any_of_exact :
    (strict : Bool) (r : EnumRules) (allow_zero hide_zero : Bool) (vs : List EnumValue) (s : String)
    (z : ℤ)
    → (admits_text (enum_any_of strict r allow_zero hide_zero vs) s
        ≡ is_named (enum_allows r allow_zero) vs s)
      × (admits_number (enum_any_of strict r allow_zero hide_zero vs) z
          ≡ (not strict && number_allowed r allow_zero vs z))
unfolding enum_any_of
enum_any_of_exact strict r allow_zero hide_zero vs s z = rw (apply_rules-marked r allow_zero vs) (
  text-members hide_zero ss (kept_names hide_zero ss) _ s (texts strict)
      ∙ names-marked (enum_allows r allow_zero) hide_zero vs s,
  number-members hide_zero ss (kept_names hide_zero ss) _ z ∙ integers strict,
)
  where
    ss : List Selector
    ss = marked (λ y. not (enum_allows r allow_zero y)) vs

    texts :
        (b : Bool)
        → admits_text (if b then [] else map numbers (enum_numbers r allow_zero ss)) s ≡ false
    texts true = refl
    texts false = admits_text-numbers (enum_numbers r allow_zero ss) s

    integers :
        (b : Bool)
        → admits_number (if b then [] else map numbers (enum_numbers r allow_zero ss)) z
          ≡ (not b && number_allowed r allow_zero vs z)
    integers true = refl
    integers false =
        admits_number-numbers (enum_numbers r allow_zero ss) z ∙ numbers-marked r allow_zero vs z
