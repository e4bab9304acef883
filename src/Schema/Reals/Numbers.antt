-- ===== src/Schema/Reals/Numbers.antt =====
-- Which float values the schema of a float field admits, beside those that the rules allow.
use grpcmcp.Base.{
  refl, ap, ◌∙◌, ◌≡◌, ◌⊎◌, inl, inr, Bool, true, false, ◌&&◌, ◌||◌, Option, none, some, [], arith,
  not, List, ◌∷◌, ◌++◌, String, contains,
}
use grpcmcp.Schema.Floats.{
  Float, nan, pos_inf, neg_inf, finite, lt_float, le_float, max_float32, minus_max_float32,
}
use grpcmcp.Schema.Fields.{
  FloatGreater, no_lower, gt_float, gte_float, FloatLess, no_upper, lt_bound, lte_bound, FloatRules,
}
use grpcmcp.Schema.Keywords.{holds}
use grpcmcp.Schema.Reals.{
  RealMember, number_form, named_form, any_text, decimal_text, other_form, text_forms,
  float_members, extrema_names, RealKeywords, RealState, start, real_state, any_of, apply_finite,
  apply_const, apply_in, apply_greater, apply_less,
}
use grpcmcp.Schema.Reals.Exact.{
  no_list, only_const, only_in, is_same, reversed, in_bounds, in_list, is_const, float_allows,
  OneRule, IsLower, IsUpper, extrema_exact,
}

-- a JSON number is valid against the keywords
abbrev pub accepts_real : RealKeywords → Float → Bool
accepts_real k x =
    holds k.minimum (λ m. le_float m x)
    && holds k.exclusive_minimum (λ m. lt_float m x)
    && holds k.maximum (λ m. le_float x m)
    && holds k.exclusive_maximum (λ m. lt_float x m)
    && holds k.enum (any_of (is_same x))

abbrev pub accepts_other : Option RealKeywords → Float → Bool
accepts_other none x = false
accepts_other (some k) x = accepts_real k x

-- A JSON number is valid against a member of `anyOf`, and so a text. The pattern of decimal texts
-- matches none of the names of the infinities and of NaN, which are the texts here.
abbrev pub admits_number : List RealMember → Float → Bool
admits_number [] x = false
admits_number (number_form k ∷ ms) x = accepts_real k x || admits_number ms x
admits_number (named_form ns ∷ ms) x = admits_number ms x
admits_number (any_text ∷ ms) x = admits_number ms x
admits_number (decimal_text ∷ ms) x = admits_number ms x

abbrev pub admits_text : List RealMember → String → Bool
admits_text [] s = false
admits_text (number_form k ∷ ms) s = admits_text ms s
admits_text (named_form ns ∷ ms) s = contains ns s || admits_text ms s
admits_text (any_text ∷ ms) s = true
admits_text (decimal_text ∷ ms) s = admits_text ms s

-- The value is admitted: a finite one as a number, and the others by their names.
abbrev pub admits : List RealMember → Float → Bool
admits ms nan = admits_text ms "NaN"
admits ms pos_inf = admits_text ms "Infinity"
admits ms neg_inf = admits_text ms "-Infinity"
admits ms (finite z) = admits_number ms (finite z)

-- the rules allow an infinity or NaN
abbrev pub allows_some_name : FloatRules → Bool
allows_some_name r = float_allows r pos_inf || float_allows r neg_inf || float_allows r nan

-- What the schema is to admit: the finite values that the rules allow. Of the others those that they
-- allow, if the schema is strict; and else all of them, if the rules allow one of them, since other
-- spellings of its name are admitted as any text.
abbrev pub to_admit : Bool → FloatRules → Float → Bool
to_admit strict r (finite z) = float_allows r (finite z)
to_admit strict r x = float_allows r x || not strict && allows_some_name r

-- the finite values of the field's type
abbrev pub InType : Bool → Float → Type 0
InType true (finite z) =
    (le_float minus_max_float32 (finite z) ≡ true) × (le_float (finite z) max_float32 ≡ true)
InType _ _ = Unit

-- no list of values beside bounds that are reversed
abbrev pub NoListIfReversed : FloatRules → Type 0
NoListIfReversed r = (reversed r.greater r.less ≡ false) ⊎ ((r.const ≡ none) × (r.within ≡ []))

-- the numbers of the schema before its bounds
abbrev Unbounded : RealState → Type 0
Unbounded s =
    (s.others ≡ none)
    × (s.numbers.minimum ≡ none)
    × (s.numbers.exclusive_minimum ≡ none)
    × (s.numbers.maximum ≡ none)
    × (s.numbers.exclusive_maximum ≡ none)

bounded_numbers :
    (single : Bool) (g : FloatGreater) (l : FloatLess) (s : RealState) (x : Float)
    → Unbounded s
    → (reversed g l ≡ false) ⊎ (s.numbers.enum ≡ none)
    → (single ≡ true → (le_float minus_max_float32 x ≡ true) × (le_float x max_float32 ≡ true))
    → let t : RealState = apply_less single l (apply_greater single g l s) in
      (accepts_real t.numbers x || accepts_other t.others x)
      ≡ (holds s.numbers.enum (any_of (is_same x)) && in_bounds g l x)
bounded_numbers true no_lower no_upper s x (o, a, b, c, d) e t =
    let (low, high) = t refl in ground (arith, o, a, b, c, d, low, high)
bounded_numbers false no_lower no_upper s x (o, a, b, c, d) e t = ground (arith, o, a, b, c, d)
bounded_numbers true no_lower (lt_bound l) s x (o, a, b, c, d) e t =
    let (low, high) = t refl in ground (arith, o, a, b, c, d, low, high)
bounded_numbers false no_lower (lt_bound l) s x (o, a, b, c, d) e t = ground (arith, o, a, b, c, d)
bounded_numbers true no_lower (lte_bound l) s x (o, a, b, c, d) e t =
    let (low, high) = t refl in ground (arith, o, a, b, c, d, low, high)
bounded_numbers false no_lower (lte_bound l) s x (o, a, b, c, d) e t = ground (arith, o, a, b, c, d)
bounded_numbers true (gt_float g) no_upper s x (o, a, b, c, d) e t =
    let (low, high) = t refl in ground (arith, o, a, b, c, d, low, high)
bounded_numbers false (gt_float g) no_upper s x (o, a, b, c, d) e t = ground (arith, o, a, b, c, d)
bounded_numbers single (gt_float g) (lt_bound l) s x (o, a, b, c, d) e t =
    ground (arith, o, a, b, c, d, e)
bounded_numbers single (gt_float g) (lte_bound l) s x (o, a, b, c, d) e t =
    ground (arith, o, a, b, c, d, e)
bounded_numbers true (gte_float g) no_upper s x (o, a, b, c, d) e t =
    let (low, high) = t refl in ground (arith, o, a, b, c, d, low, high)
bounded_numbers false (gte_float g) no_upper s x (o, a, b, c, d) e t = ground (arith, o, a, b, c, d)
bounded_numbers single (gte_float g) (lt_bound l) s x (o, a, b, c, d) e t =
    ground (arith, o, a, b, c, d, e)
bounded_numbers single (gte_float g) (lte_bound l) s x (o, a, b, c, d) e t =
    ground (arith, o, a, b, c, d, e)

abbrev listed_state : FloatRules → RealState
listed_state r = apply_in r.within (apply_const r.const (apply_finite r.is_finite start))

listed_numbers :
    (r : FloatRules) (x : Float)
    → OneRule r
    → Unbounded (listed_state r)
      × (holds (listed_state r).numbers.enum (any_of (is_same x))
          ≡ (is_const r.const x && in_list r.within x))
      × ((r.const ≡ none) × (r.within ≡ []) → (listed_state r).numbers.enum ≡ none)
listed_numbers r x (no_list _ c w) = ground (arith, c, w)
listed_numbers r x (only_const _ f w) = ground (arith, f, w)
listed_numbers r x (only_in _ f c) = ground (arith, f, c)

named_texts :
    (strict a b c : Bool)
    → let ms : List RealMember =
        text_forms strict (extrema_names (record { pos_inf = a; neg_inf = b; nan = c })) in
      (admits_text ms "Infinity" ≡ (a || not strict && (a || b || c)))
      × (admits_text ms "-Infinity" ≡ (b || not strict && (a || b || c)))
      × (admits_text ms "NaN" ≡ (c || not strict && (a || b || c)))
unfolding extrema_names contains
named_texts true true true true = (refl, refl, refl)
named_texts true true true false = (refl, refl, refl)
named_texts true true false true = (refl, refl, refl)
named_texts true true false false = (refl, refl, refl)
named_texts true false true true = (refl, refl, refl)
named_texts true false true false = (refl, refl, refl)
named_texts true false false true = (refl, refl, refl)
named_texts true false false false = (refl, refl, refl)
named_texts false true true true = (refl, refl, refl)
named_texts false true true false = (refl, refl, refl)
named_texts false true false true = (refl, refl, refl)
named_texts false true false false = (refl, refl, refl)
named_texts false false true true = (refl, refl, refl)
named_texts false false true false = (refl, refl, refl)
named_texts false false false true = (refl, refl, refl)
named_texts false false false false = (refl, refl, refl)

-- the forms of the numbers admit no text, and the forms of texts no number
texts_behind :
    (o : Option RealKeywords) (ms : List RealMember) (s : String)
    → admits_text (other_form o ++ ms) s ≡ admits_text ms s
texts_behind none ms s = refl
texts_behind (some k) ms s = refl

no_number :
    (strict : Bool) (ns : List String) (x : Float) → admits_number (text_forms strict ns) x ≡ false
no_number true [] x = refl
no_number false [] x = refl
no_number true (n ∷ ns) x = refl
no_number false (n ∷ ns) x = refl

numbers_front :
    (o : Option RealKeywords) (ms : List RealMember) (x : Float)
    → admits_number ms x ≡ false
    → admits_number (other_form o ++ ms) x ≡ accepts_other o x
numbers_front none ms x h = h
numbers_front (some k) ms x h = ground (arith, h)

members-number :
    (strict : Bool) (s : RealState) (x : Float)
    → admits_number (float_members strict s) x
      ≡ (accepts_real s.numbers x || accepts_other s.others x)
unfolding float_members
members-number strict s x =
    ap (λ b. accepts_real s.numbers x || b)
      (numbers_front s.others (text_forms strict (extrema_names s.extrema)) x
        (no_number strict (extrema_names s.extrema) x))

members-text :
    (strict : Bool) (s : RealState) (t : String)
    → admits_text (float_members strict s) t
      ≡ admits_text (text_forms strict (extrema_names s.extrema)) t
unfolding float_members
members-text strict s t = texts_behind s.others (text_forms strict (extrema_names s.extrema)) t

names_exact :
    {a b c u v w : Bool} (f : Bool → Bool → Bool → Bool)
    → (a ≡ u) × (b ≡ v) × (c ≡ w)
    → f a b c ≡ f u v w
names_exact f (p, q, r) = cc

numbers_exact :
    (single : Bool) (r : FloatRules) (x : Float)
    → OneRule r
    → NoListIfReversed r
    → (single ≡ true → (le_float minus_max_float32 x ≡ true) × (le_float x max_float32 ≡ true))
    → (accepts_real (real_state single r).numbers x || accepts_other (real_state single r).others x)
      ≡ (is_const r.const x && in_list r.within x && in_bounds r.greater r.less x)
unfolding real_state
numbers_exact single r x one list typed =
    let (clear, allowed, no_enum) = listed_numbers r x one in
    bounded_numbers single r.greater r.less (listed_state r) x clear (enum_or list no_enum) typed
    ∙ ap (λ b. b && in_bounds r.greater r.less x) allowed
    ∙ ground arith
  where
    enum_or :
        NoListIfReversed r
        → ((r.const ≡ none) × (r.within ≡ []) → (listed_state r).numbers.enum ≡ none)
        → (reversed r.greater r.less ≡ false) ⊎ ((listed_state r).numbers.enum ≡ none)
    enum_or (inl e) f = inl e
    enum_or (inr e) f = inr (f e)

-- The schema of a float field admits a finite value of the field's type, as a number, exactly if the
-- rules allow it. It admits an infinity or NaN by its name exactly if the rules allow it; or, where the
-- schema is not strict, if they allow any of these three. The rules give at most one of `finite`,
-- `const` and `in`, and neither list beside bounds that are reversed; and no bound is NaN or excludes
-- every value.
pub float_exact :
    (strict single : Bool) (r : FloatRules) (x : Float)
    → OneRule r
    → IsLower r.greater
    → IsUpper r.less
    → NoListIfReversed r
    → InType single x
    → admits (float_members strict (real_state single r)) x ≡ to_admit strict r x
float_exact strict single r nan one lower upper list type =
    members-text strict (real_state single r) "NaN"
    ∙ (named_texts strict _ _ _).2
    ∙ names_exact (λ a b c. c || not strict && (a || b || c))
        (extrema_exact single r one lower upper)
float_exact strict single r pos_inf one lower upper list type =
    members-text strict (real_state single r) "Infinity"
    ∙ (named_texts strict _ _ _).0
    ∙ names_exact (λ a b c. a || not strict && (a || b || c))
        (extrema_exact single r one lower upper)
float_exact strict single r neg_inf one lower upper list type =
    members-text strict (real_state single r) "-Infinity"
    ∙ (named_texts strict _ _ _).1
    ∙ names_exact (λ a b c. b || not strict && (a || b || c))
        (extrema_exact single r one lower upper)
float_exact strict single r (finite z) one lower upper list type =
    members-number strict (real_state single r) (finite z)
    ∙ numbers_exact single r (finite z) one list (typed single type)
    ∙ ground arith
  where
    typed :
        (b : Bool)
        → InType b (finite z)
        → b ≡ true
        → (le_float minus_max_float32 (finite z) ≡ true) × (le_float (finite z) max_float32 ≡ true)
    typed true h e = h
    typed false h e = cc
