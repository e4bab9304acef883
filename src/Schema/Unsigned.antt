-- ===== src/Schema/Unsigned.antt =====
-- `generateUintValidation`. The rules are those of Signed, with bounds that are not negative.
pub mod Exact
pub mod Valid
use Prim.Native.Nat.{◌^◌}
use grpcmcp.Base.{ℕ, String, Bool, Option, none, some, List, [], ◌∷◌, ◌++◌, ltb, if◌then◌else◌}
use grpcmcp.Base.Int.{ℤ, pos, ltb_ℤ, leb_ℤ}
use grpcmcp.Schema.Keywords.{integer, Keywords, no_keywords, Schema, put_any_of}
use grpcmcp.Schema.Signed.{
  Greater, gt, gte, Less, lt, lte, NumberRule, js_max_int, is_or, const_in_validation, number_base,
  string_form,
}

-- 2^bits, as `maxExclVal` has it in floating point
abbrev pub max_excl_uint : ℕ → ℤ
max_excl_uint bits = pos (2 ^ bits)

-- the lower bound of `numberSchema`, where the bounds do not cross
abbrev lower_uint : Greater → Keywords → Keywords
lower_uint Greater.unbounded k = record k { minimum = some (pos 0) }
lower_uint (gt g) k = record k { exclusive_minimum = some g }
lower_uint (gte g) k = record k { minimum = some g }

-- the lower bound of `orNumberSchema`
abbrev or_lower_uint : Greater → Keywords
or_lower_uint Greater.unbounded = no_keywords
or_lower_uint (gt g) =
    if leb_ℤ g js_max_int then record no_keywords { exclusive_minimum = some g } else no_keywords
or_lower_uint (gte g) = record no_keywords { minimum = some g }

abbrev upper_uint : ℕ → Less → Keywords → Keywords
upper_uint bits Less.unbounded k =
    if ltb bits 53 then record k { exclusive_maximum = some (max_excl_uint bits) } else k
upper_uint bits (lt l) k = if leb_ℤ l js_max_int then record k { exclusive_maximum = some l } else k
upper_uint bits (lte l) k = if ltb_ℤ l js_max_int then record k { maximum = some l } else k

pub uint_members_from : Keywords → Greater → Less → ℕ → List Keywords
uint_members_from base greater less bits =
    if is_or greater less
    then (let others = record (or_lower_uint greater) { type_name = some integer } in
        record (upper_uint bits less base) { minimum = some (pos 0) }
        ∷ (if ltb bits 53
            then record others { exclusive_maximum = some (max_excl_uint bits) }
            else others)
        ∷ [])
    else upper_uint bits less (lower_uint greater base) ∷ []

pub uint_members : NumberRule → ℕ → List Keywords
unfolding const_in_validation
uint_members r bits = uint_members_from (const_in_validation r number_base) r.greater r.less bits

-- `^[0-9]+$`
abbrev pub unsigned_pattern : String
unsigned_pattern = "^[0-9]+$"

pub uint_validation : Bool → NumberRule → ℕ → Schema → Schema
uint_validation strict r bits s =
    put_any_of (uint_members r bits ++ (if strict then [] else string_form unsigned_pattern ∷ [])) s
