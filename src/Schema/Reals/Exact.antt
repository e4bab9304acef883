-- ===== src/Schema/Reals/Exact.antt =====
-- The infinities and NaN that the schema of a float field names, beside those that the rules allow.
use grpcmcp.Base.{
  ap, ◌∙◌, ◌≡◌, Bool, true, false, not, ◌&&◌, ◌||◌, Option, none, some, List, [], ◌∷◌, arith,
  if◌then◌else◌,
}
use grpcmcp.Schema.Floats.{Float, nan, pos_inf, neg_inf, finite, lt_float, le_float, eq_float}
use grpcmcp.Schema.Fields.{
  FloatGreater, no_lower, gt_float, gte_float, FloatLess, no_upper, lt_bound, lte_bound, FloatRules,
}
use grpcmcp.Schema.Reals.{
  RealState, start, real_state, any_of, is_pos_inf, is_neg_inf, is_nan, apply_finite, apply_const,
  apply_in, apply_greater, apply_less,
}

-- the value itself, NaN included
abbrev pub is_same : Float → Float → Bool
is_same nan x = is_nan x
is_same pos_inf x = is_pos_inf x
is_same neg_inf x = is_neg_inf x
is_same (finite z) x = eq_float (finite z) x

abbrev pub is_number : Float → Bool
is_number (finite z) = true
is_number _ = false

abbrev pub above : FloatGreater → Float → Bool
above no_lower x = true
above (gt_float g) x = lt_float g x
above (gte_float g) x = le_float g x

abbrev pub below : FloatLess → Float → Bool
below no_upper x = true
below (lt_bound l) x = lt_float x l
below (lte_bound l) x = le_float x l

-- the upper bound excludes the lower one
abbrev pub reversed : FloatGreater → FloatLess → Bool
reversed (gt_float g) (lt_bound l) = le_float l g
reversed (gt_float g) (lte_bound l) = le_float l g
reversed (gte_float g) (lt_bound l) = le_float l g
reversed (gte_float g) (lte_bound l) = lt_float l g
reversed _ _ = false

-- protovalidate: both bounds, or one of them if they are reversed
abbrev pub in_bounds : FloatGreater → FloatLess → Float → Bool
in_bounds g l x = if reversed g l then above g x || below l x else above g x && below l x

abbrev pub in_list : List Float → Float → Bool
in_list [] x = true
in_list (y ∷ ys) x = any_of (is_same x) (y ∷ ys)

abbrev pub is_const : Option Float → Float → Bool
is_const none x = true
is_const (some c) x = is_same x c

abbrev pub float_allows : FloatRules → Float → Bool
float_allows r x =
    (not r.is_finite || is_number x)
    && is_const r.const x
    && in_list r.within x
    && in_bounds r.greater r.less x

abbrev pub NotNan : Float → Type 0
NotNan nan = ⊥
NotNan _ = Unit

-- a lower bound that some value exceeds
abbrev pub IsLower : FloatGreater → Type 0
IsLower no_lower = Unit
IsLower (gt_float pos_inf) = ⊥
IsLower (gt_float g) = NotNan g
IsLower (gte_float g) = NotNan g

abbrev pub IsUpper : FloatLess → Type 0
IsUpper no_upper = Unit
IsUpper (lt_bound neg_inf) = ⊥
IsUpper (lt_bound l) = NotNan l
IsUpper (lte_bound l) = NotNan l

-- one of the rules `finite`, `const` and `in` at most
pub data OneRule : FloatRules → Type 0 where
  no_list : (r : FloatRules) → r.const ≡ none → r.within ≡ [] → OneRule r
  only_const : (r : FloatRules) → r.is_finite ≡ false → r.within ≡ [] → OneRule r
  only_in : (r : FloatRules) → r.is_finite ≡ false → r.const ≡ none → OneRule r

bounded :
    (single : Bool) (g : FloatGreater) (l : FloatLess) (s : RealState)
    → s.others ≡ none
    → IsLower g
    → IsUpper l
    → ((apply_less single l (apply_greater single g l s)).extrema.pos_inf
        ≡ (s.extrema.pos_inf && in_bounds g l pos_inf))
      × ((apply_less single l (apply_greater single g l s)).extrema.neg_inf
          ≡ (s.extrema.neg_inf && in_bounds g l neg_inf))
      × ((apply_less single l (apply_greater single g l s)).extrema.nan
          ≡ (s.extrema.nan && in_bounds g l nan))
bounded single no_lower no_upper s e p q = ground arith
bounded single no_lower (lt_bound l) s e p q = ground arith
bounded single no_lower (lte_bound l) s e p q = ground arith
bounded single (gt_float g) no_upper s e p q = ground arith
bounded single (gt_float g) (lt_bound l) s e p q = ground arith
bounded single (gt_float g) (lte_bound l) s e p q = ground arith
bounded single (gte_float g) no_upper s e p q = ground arith
bounded single (gte_float g) (lt_bound l) s e p q = ground arith
bounded single (gte_float g) (lte_bound l) s e p q = ground arith

-- what the rules besides the bounds leave of the extrema
listed :
    (r : FloatRules)
    → OneRule r
    → let s : RealState =
        apply_in r.within (apply_const r.const (apply_finite r.is_finite start)) in
      (s.others ≡ none)
      × (s.extrema.pos_inf
          ≡ ((not r.is_finite || false) && is_const r.const pos_inf && in_list r.within pos_inf))
      × (s.extrema.neg_inf
          ≡ ((not r.is_finite || false) && is_const r.const neg_inf && in_list r.within neg_inf))
      × (s.extrema.nan
          ≡ ((not r.is_finite || false) && is_const r.const nan && in_list r.within nan))
listed r (no_list _ c w) = ground (arith, c, w)
listed r (only_const _ f w) = ground (arith, f, w)
listed r (only_in _ f c) = ground (arith, f, c)

-- The schema of a float field names an infinity, or NaN, exactly if the rules allow it: if they give
-- at most one of `finite`, `const` and `in`, and no bound is NaN or excludes every value. A value
-- that `const` or `in` gives counts as allowed by it also where it is NaN.
pub extrema_exact :
    (single : Bool) (r : FloatRules)
    → OneRule r
    → IsLower r.greater
    → IsUpper r.less
    → ((real_state single r).extrema.pos_inf ≡ float_allows r pos_inf)
      × ((real_state single r).extrema.neg_inf ≡ float_allows r neg_inf)
      × ((real_state single r).extrema.nan ≡ float_allows r nan)
unfolding real_state
extrema_exact single r one lower upper =
    let s : RealState = apply_in r.within (apply_const r.const (apply_finite r.is_finite start)) in
    let (clear, p, n, u) = listed r one in
    let (bp, bn, bu) = bounded single r.greater r.less s clear lower upper in
    (
      bp ∙ ap (λ b. b && in_bounds r.greater r.less pos_inf) p ∙ rest pos_inf,
      bn ∙ ap (λ b. b && in_bounds r.greater r.less neg_inf) n ∙ rest neg_inf,
      bu ∙ ap (λ b. b && in_bounds r.greater r.less nan) u ∙ rest nan,
    )
  where
    regroup : (a b c d : Bool) → ((a && b && c) && d) ≡ (a && b && c && d)
    regroup a b c d = ground arith

    rest :
        (x : Float)
        → (((not r.is_finite || is_number x) && is_const r.const x && in_list r.within x)
            && in_bounds r.greater r.less x)
          ≡ float_allows r x
    rest x =
        regroup (not r.is_finite || is_number x) (is_const r.const x) (in_list r.within x)
          (in_bounds r.greater r.less x)
