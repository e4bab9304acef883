-- ===== src/Schema/Reals.antt =====
-- `generateFloatValidation`, whose two branches for FloatRules and DoubleRules differ in the default
-- bounds alone.
pub mod Exact
pub mod Numbers
use Prim.Native.String.{String}
use grpcmcp.Base.{
  is_some, Bool, true, false, not, ◌&&◌, ◌||◌, Option, none, some, List, [], ◌∷◌, ◌++◌, map,
  if◌then◌else◌,
}
use grpcmcp.Schema.Floats.{
  Float, nan, pos_inf, neg_inf, lt_float, le_float, eq_float, max_float32, minus_max_float32,
}
use grpcmcp.Schema.Json.{
  Json, text, real, array, Entries, empty, put, copy, put_some, real_items, text_items,
  object_items,
}
use grpcmcp.Schema.Fields.{
  Options, FloatGreater, no_lower, gt_float, gte_float, FloatLess, no_upper, lt_bound, lte_bound,
  FloatRules, Rules, TypeRules, float_rules, double_rules, Field, type_rules, generate_default,
}

-- the keywords of a schema of type number
pub record RealKeywords : Type 0 where
  pub minimum : Option Float
  pub exclusive_minimum : Option Float
  pub maximum : Option Float
  pub exclusive_maximum : Option Float
  pub enum : Option (List Float)

abbrev pub no_real_keywords : RealKeywords
no_real_keywords = record {
  minimum = none;
  exclusive_minimum = none;
  maximum = none;
  exclusive_maximum = none;
  enum = none;
}

-- `includePosInf`, `includeNegInf` and `includeNaN`
pub record Extrema : Type 0 where
  pub pos_inf : Bool
  pub neg_inf : Bool
  pub nan : Bool

abbrev pub all_extrema : Extrema
all_extrema = record { pos_inf = true; neg_inf = true; nan = true }

abbrev pub no_extrema : Extrema
no_extrema = record { pos_inf = false; neg_inf = false; nan = false }

-- math.IsInf and math.IsNaN
abbrev pub is_pos_inf : Float → Bool
is_pos_inf pos_inf = true
is_pos_inf _ = false

abbrev pub is_neg_inf : Float → Bool
is_neg_inf neg_inf = true
is_neg_inf _ = false

abbrev pub is_nan : Float → Bool
is_nan nan = true
is_nan _ = false

abbrev pub any_of : (Float → Bool) → List Float → Bool
any_of test [] = false
any_of test (x ∷ xs) = test x || any_of test xs

abbrev pub extrema_of : List Float → Extrema
extrema_of xs = record {
  pos_inf = any_of is_pos_inf xs;
  neg_inf = any_of is_neg_inf xs;
  nan = any_of is_nan xs;
}

-- the numbers that the generator collects: `numberSchema`, `orNumberSchema` and the extrema
pub record RealState : Type 0 where
  pub numbers : RealKeywords
  pub others : Option RealKeywords
  pub extrema : Extrema

abbrev pub apply_finite : Bool → RealState → RealState
apply_finite true s = record s { extrema = no_extrema }
apply_finite false s = s

abbrev pub apply_enum : List Float → RealState → RealState
apply_enum xs s = record s {
  numbers = record s.numbers { enum = some xs };
  extrema = extrema_of xs;
}

abbrev pub apply_const : Option Float → RealState → RealState
apply_const none s = s
apply_const (some c) s = apply_enum (c ∷ []) s

abbrev pub apply_in : List Float → RealState → RealState
apply_in [] s = s
apply_in (x ∷ xs) s = apply_enum (x ∷ xs) s

-- `isOr`
abbrev pub crosses : FloatGreater → FloatLess → Bool
crosses no_lower l = false
crosses (gt_float g) no_upper = false
crosses (gt_float g) (lt_bound l) = le_float l g
crosses (gt_float g) (lte_bound l) = le_float l g
crosses (gte_float g) no_upper = false
crosses (gte_float g) (lt_bound l) = le_float l g
crosses (gte_float g) (lte_bound l) = lt_float l g

abbrev without_nan : RealState → RealState
without_nan s = record s { extrema = record s.extrema { nan = false } }

abbrev without_neg_inf : RealState → RealState
without_neg_inf s = record s { extrema = record s.extrema { neg_inf = false } }

abbrev without_pos_inf : RealState → RealState
without_pos_inf s = record s { extrema = record s.extrema { pos_inf = false } }

-- the switch on `GetGreaterThan`; only the branch for FloatRules has a default
abbrev pub apply_greater : Bool → FloatGreater → FloatLess → RealState → RealState
apply_greater single no_lower l s =
    if single
    then record s { numbers = record s.numbers { minimum = some minus_max_float32 } }
    else s
apply_greater single (gt_float g) l s =
    let s' = without_nan s in
    if crosses (gt_float g) l
    then record s' { others = some (record no_real_keywords { exclusive_minimum = some g }) }
    else record (without_neg_inf s') { numbers = record s'.numbers { exclusive_minimum = some g } }
apply_greater single (gte_float g) l s =
    let s' = without_nan s in
    if crosses (gte_float g) l
    then record s' { others = some (record no_real_keywords { minimum = some g }) }
    else record (if not (eq_float g neg_inf) then without_neg_inf s' else s') {
      numbers = record s'.numbers { minimum = some g };
    }

-- the switch on `GetLessThan`
abbrev pub apply_less : Bool → FloatLess → RealState → RealState
apply_less single no_upper s =
    if single then record s { numbers = record s.numbers { maximum = some max_float32 } } else s
apply_less single (lt_bound l) s =
    let s' = without_nan s in
    record (if is_some s.others then s' else without_pos_inf s') {
      numbers = record s.numbers { exclusive_maximum = some l };
    }
apply_less single (lte_bound l) s =
    let s' = without_nan s in
    record (if not (eq_float l pos_inf) && not (is_some s.others) then without_pos_inf s' else s') {
      numbers = record s.numbers { maximum = some l };
    }

abbrev pub start : RealState
start = record { numbers = no_real_keywords; others = none; extrema = all_extrema }

unfoldable pub real_state : Bool → FloatRules → RealState
real_state single r = apply_less single r.less (
    apply_greater single r.greater r.less
      (apply_in r.within (apply_const r.const (apply_finite r.is_finite start))))

-- without rules, only the range of a float32
abbrev pub plain_state : Bool → RealState
plain_state single =
    if single
    then record start {
      numbers = record no_real_keywords {
        minimum = some minus_max_float32;
        maximum = some max_float32;
      };
    }
    else start

abbrev pub state_of : Bool → TypeRules → RealState
state_of single (float_rules r) = real_state true r
state_of single (double_rules r) = real_state false r
state_of single _ = plain_state single

put_reals : RealKeywords → Entries
put_reals k =
    let s1 = put_some "minimum" real k.minimum (put "type" (text "number") empty) in
    let s2 = put_some "exclusiveMinimum" real k.exclusive_minimum s1 in
    let s3 = put_some "maximum" real k.maximum s2 in
    let s4 = put_some "exclusiveMaximum" real k.exclusive_maximum s3 in
    put_some "enum" (λ xs. array (real_items xs)) k.enum s4

-- `extremaEnum`
pub extrema_names : Extrema → List String
extrema_names e =
    (if e.pos_inf then "Infinity" ∷ [] else [])
    ++ ((if e.neg_inf then "-Infinity" ∷ [] else []) ++ (if e.nan then "NaN" ∷ [] else []))

text_type : Entries
text_type = put "type" (text "string") empty

-- A member of `anyOf`: numbers, the names of the extrema, any text, or the texts of decimal numbers.
pub data RealMember : Type 0 where
  number_form : RealKeywords → RealMember
  named_form : List String → RealMember
  any_text decimal_text : RealMember

abbrev pub other_form : Option RealKeywords → List RealMember
other_form none = []
other_form (some k) = number_form k ∷ []

-- the texts beside the numbers
abbrev pub text_forms : Bool → List String → List RealMember
text_forms strict [] = if strict then [] else decimal_text ∷ []
text_forms strict (n ∷ ns) = named_form (n ∷ ns) ∷ (if strict then [] else any_text ∷ [])

-- `anyOf`
pub float_members : Bool → RealState → List RealMember
unfolding extrema_names
float_members strict s =
    number_form s.numbers ∷ (other_form s.others ++ text_forms strict (extrema_names s.extrema))

real_entries : RealMember → Entries
unfolding put_reals text_type
real_entries (number_form k) = put_reals k
real_entries (named_form ns) = put "enum" (array (text_items ns)) text_type
real_entries any_text = text_type
real_entries decimal_text =
    put "pattern" (text "^-?[0-9]+(\\.[0-9]+)?([eE][+-]?[0-9]+)?$") text_type

abbrev put_any_of_entries : List Entries → Entries → Entries
put_any_of_entries [] schema = schema
put_any_of_entries (s ∷ []) schema = copy s schema
put_any_of_entries (s ∷ t ∷ rest) schema = put "anyOf" (array (object_items (s ∷ t ∷ rest))) schema

pub generate_float_validation : Options → Field → Bool → Option Rules → Entries → Bool → Entries
unfolding real_state float_members real_entries generate_default
generate_float_validation p field implicit_presence rules schema single =
    let members = float_members p.strict (state_of single (type_rules rules)) in
    generate_default p field implicit_presence rules
      (put_any_of_entries (map real_entries members) schema)
