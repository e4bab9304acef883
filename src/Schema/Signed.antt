-- ===== src/Schema/Signed.antt =====
-- `generateIntValidation` and `generateConstInValidation`.
pub mod Exact
pub mod Valid
use Prim.Native.Nat.{◌^◌}
use grpcmcp.Base.{
  ℕ, ◌-◌, String, Bool, true, false, not, ◌&&◌, ◌||◌, Option, none, some, List, [], ◌∷◌, ◌++◌, ltb,
  leb, if◌then◌else◌,
}
use grpcmcp.Base.Int.{ℤ, pos, negsuc, ltb_ℤ, leb_ℤ, eqb_ℤ}
use grpcmcp.Schema.Keywords.{
  TypeName, integer, string, Keywords, no_keywords, Schema, put_any_of, accepts,
}

-- the oneof `greater_than` of a numeric rule
pub data Greater : Type 0 where
  unbounded : Greater
  gt gte : ℤ → Greater

-- the oneof `less_than`
pub data Less : Type 0 where
  unbounded : Less
  lt lte : ℤ → Less

-- what `numberRule[T]` gives access to
pub record NumberRule : Type 0 where
  pub const : Option ℤ
  pub within : List ℤ
  pub greater : Greater
  pub less : Less

-- 2^53 - 1, as `maxSafeInteger`, `jsMaxInt` and `jsMinInt`
abbrev pub max_safe : ℕ
max_safe = 9007199254740991

abbrev pub js_max_int : ℤ
js_max_int = pos max_safe

abbrev pub js_min_int : ℤ
js_min_int = negsuc (max_safe - 1)

-- `minVal` and `maxExclVal`
abbrev pub min_val : ℕ → ℤ
min_val bits = if ltb 52 bits then js_min_int else negsuc (2 ^ (bits - 1) - 1)

abbrev pub max_excl_val : ℕ → ℤ
max_excl_val bits = if ltb 52 bits then pos 9007199254740992 else pos (2 ^ (bits - 1))

unfoldable pub const_in_validation : NumberRule → Keywords → Keywords
const_in_validation r k = elim r.const [
  | some c ↦ record k { int_enum = some (c ∷ []) }
  | none ↦ elim r.within [ [] ↦ k | z ∷ zs ↦ record k { int_enum = some (z ∷ zs) } ]
]

-- `isOr`: the two bounds cross, so that a value may lie on either side
abbrev pub is_or : Greater → Less → Bool
is_or unbounded l = false
is_or (gt g) unbounded = false
is_or (gt g) (lt l) = leb_ℤ l g
is_or (gt g) (lte l) = leb_ℤ l g
is_or (gte g) unbounded = false
is_or (gte g) (lt l) = leb_ℤ l g
is_or (gte g) (lte l) = ltb_ℤ l g

-- the lower bound that is written where it is safe, on the schema of its branch
abbrev lower : Greater → Keywords → Keywords
lower unbounded k = k
lower (gt g) k = if leb_ℤ js_min_int g then record k { exclusive_minimum = some g } else k
lower (gte g) k = if ltb_ℤ js_min_int g then record k { minimum = some g } else k

abbrev lower_or_default : ℕ → Greater → Keywords → Keywords
lower_or_default bits unbounded k =
    if leb bits 53 then record k { minimum = some (min_val bits) } else k
lower_or_default bits g k = lower g k

abbrev upper_or_default : ℕ → Less → Keywords → Keywords
upper_or_default bits unbounded k =
    if ltb bits 53 then record k { exclusive_maximum = some (max_excl_val bits) } else k
upper_or_default bits (lt l) k =
    if leb_ℤ l js_max_int then record k { exclusive_maximum = some l } else k
upper_or_default bits (lte l) k = if ltb_ℤ l js_max_int then record k { maximum = some l } else k

abbrev pub number_base : Keywords
number_base = record no_keywords { type_name = some integer }

-- `^-?[0-9]+$`
abbrev pub signed_pattern : String
signed_pattern = "^-?[0-9]+$"

abbrev pub string_form : String → Keywords
string_form p = record no_keywords { type_name = some string; pattern = some p }

-- `numberSchema`, which has been given its enum, and, if the bounds cross, `orNumberSchema`
pub members_from : Keywords → Greater → Less → ℕ → List Keywords
members_from base greater less bits =
    if is_or greater less
    then (let numbers = upper_or_default bits less base in
        let others = record (lower greater no_keywords) { type_name = some integer } in
        (if ltb bits 53 then record numbers { minimum = some (min_val bits) } else numbers)
        ∷ (if ltb bits 53
            then record others { exclusive_maximum = some (max_excl_val bits) }
            else others)
        ∷ [])
    else upper_or_default bits less (lower_or_default bits greater base) ∷ []

pub int_members : NumberRule → ℕ → List Keywords
unfolding const_in_validation
int_members r bits = members_from (const_in_validation r number_base) r.greater r.less bits

pub int_validation : Bool → NumberRule → ℕ → Schema → Schema
int_validation strict r bits s =
    put_any_of (int_members r bits ++ (if strict then [] else string_form signed_pattern ∷ [])) s
