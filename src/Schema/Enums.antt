-- ===== src/Schema/Enums.antt =====
-- `generateEnumValidation` and `generateEnumInt32Validation`.
pub mod Admitted
pub mod Exact
pub mod Selected
use Prim.Native.String.{String}
use grpcmcp.Base.{
  is_some, ℕ, Bool, true, false, not, ◌&&◌, ◌||◌, Option, none, some, List, [], ◌∷◌, ◌++◌, map,
  if◌then◌else◌,
}
use grpcmcp.Base.Int.{ℤ, pos, negsuc, ltb_ℤ, leb_ℤ, eqb_ℤ, suc_ℤ}
use grpcmcp.Base.Texts.{◌⧺◌}
use grpcmcp.Schema.Json.{
  Json, text, array, object, Entries, empty, put, copy, text_items, object_items, put_keywords,
}
use grpcmcp.Schema.Keywords.{Keywords, no_keywords, integer, mem_ℤ}
use grpcmcp.Schema.Fields.{
  Options, EnumRules, TypeRules, enum_rules, Rules, EnumValue, EnumType, Field, required,
  zero_ignored, type_rules, generate_default, name_to_title,
}

-- slices.Sort
unfoldable pub insert_sorted : ℤ → List ℤ → List ℤ
insert_sorted z [] = z ∷ []
insert_sorted z (y ∷ ys) =
    let later = insert_sorted z ys in if leb_ℤ z y then z ∷ y ∷ ys else y ∷ later

unfoldable pub sort : List ℤ → List ℤ
sort [] = []
sort (z ∷ zs) = insert_sorted z (sort zs)

-- slices.Compact, behind an element that is kept
unfoldable pub compact_after : ℤ → List ℤ → List ℤ
compact_after z [] = []
compact_after z (y ∷ ys) = let rest = compact_after y ys in if eqb_ℤ y z then rest else y ∷ rest

abbrev pub compact : List ℤ → List ℤ
compact [] = []
compact (z ∷ zs) = z ∷ compact_after z zs

abbrev pub range_keywords : ℤ → ℤ → Keywords
range_keywords start last = record no_keywords {
  type_name = some integer;
  minimum = some start;
  maximum = some last;
}

-- the loop over the values behind the first, and the range that it leaves open
pub ranges_from : ℤ → ℤ → List ℤ → List Keywords
ranges_from start last [] = range_keywords start last ∷ []
ranges_from start last (z ∷ zs) =
    let closed = range_keywords start last ∷ ranges_from z z zs in
    let open_on = ranges_from start z zs in if eqb_ℤ z (suc_ℤ last) then open_on else closed

abbrev pub ranges_of : List ℤ → List Keywords
ranges_of [] = []
ranges_of (z ∷ zs) = ranges_from z z zs

-- the ranges that are appended to `anyOf`
pub enum_int32_validation : List ℤ → List Keywords
unfolding ranges_from
enum_int32_validation values = ranges_of (compact (sort values))

-- `enumValueSelector`
pub record Selector : Type 0 where
  pub remove : Bool
  pub number : ℤ
  pub name : String

-- the first loop
pub selectors : Bool → List EnumValue → List Selector
selectors allow_zero [] = []
selectors allow_zero (v ∷ vs) =
    record { remove = not allow_zero && eqb_ℤ v.number (pos 0); number = v.number; name = v.name }
    ∷ selectors allow_zero vs

-- a loop that removes the values whose number satisfies the test
pub remove_if : (ℤ → Bool) → List Selector → List Selector
remove_if test [] = []
remove_if test (s ∷ ss) = record s { remove = s.remove || test s.number } ∷ remove_if test ss

pub apply_const : Option ℤ → List Selector → List Selector
apply_const none ss = ss
apply_const (some c) ss = remove_if (λ z. not (eqb_ℤ z c)) ss

pub apply_in : List ℤ → List Selector → List Selector
apply_in [] ss = ss
apply_in (z ∷ zs) ss = remove_if (λ n. not (mem_ℤ n (z ∷ zs))) ss

pub apply_not_in : List ℤ → List Selector → List Selector
apply_not_in [] ss = ss
apply_not_in (z ∷ zs) ss = remove_if (λ n. mem_ℤ n (z ∷ zs)) ss

-- A member of `anyOf`: a name that is allowed but not offered, the names, or a range of numbers.
pub data EnumMember : Type 0 where
  hidden_name : String → EnumMember
  names : List String → EnumMember
  numbers : Keywords → EnumMember

-- `int32Values`, `stringValues`, and the patterns of the hidden names
pub kept_numbers : List Selector → List ℤ
kept_numbers [] = []
kept_numbers (s ∷ ss) = let rest = kept_numbers ss in if s.remove then rest else s.number ∷ rest

pub kept_names : Bool → List Selector → List String
kept_names hide_zero [] = []
kept_names hide_zero (s ∷ ss) =
    let rest = kept_names hide_zero ss in
    if s.remove || hide_zero && eqb_ℤ s.number (pos 0) then rest else s.name ∷ rest

pub hidden_names : Bool → List Selector → List EnumMember
hidden_names hide_zero [] = []
hidden_names hide_zero (s ∷ ss) =
    let rest = hidden_names hide_zero ss in
    if not s.remove && hide_zero && eqb_ℤ s.number (pos 0) then hidden_name s.name ∷ rest else rest

abbrev pub if_any : List String → List EnumMember
if_any [] = []
if_any (s ∷ ss) = names (s ∷ ss) ∷ []

abbrev pub int32_min : ℤ
int32_min = negsuc 2147483647

abbrev pub int32_max : ℤ
int32_max = pos 2147483647

abbrev pub is_listed {ℓ} : {A : Type ℓ} → List A → Bool
is_listed [] = false
is_listed (x ∷ xs) = true

abbrev pub no_enum_rules : EnumRules
no_enum_rules = record { const = none; within = []; not_in = []; defined_only = false }

-- `rules.GetEnum()`, whose getters answer for nil
abbrev pub of_enum : TypeRules → EnumRules
of_enum (enum_rules r) = r
of_enum _ = no_enum_rules

-- the values are an explicit list
abbrev pub is_closed : EnumRules → Bool
is_closed r = r.defined_only || is_some r.const || is_listed r.within

abbrev pub any_int32 : List Keywords
any_int32 =
    record no_keywords {
      type_name = some integer;
      minimum = some int32_min;
      maximum = some int32_max;
    }
    ∷ []

abbrev pub nonzero_int32 : List Keywords
nonzero_int32 =
    record no_keywords {
      type_name = some integer;
      minimum = some int32_min;
      exclusive_maximum = some (pos 0);
    }
    ∷ record no_keywords {
      type_name = some integer;
      exclusive_minimum = some (pos 0);
      maximum = some int32_max;
    }
    ∷ []

-- the integers that are allowed besides the names, where the schema is not strict
pub enum_numbers : EnumRules → Bool → List Selector → List Keywords
unfolding kept_numbers enum_int32_validation
enum_numbers r allow_zero ss =
    if is_closed r
    then enum_int32_validation (kept_numbers ss)
    else if allow_zero
    then any_int32
    else nonzero_int32

pub apply_rules : EnumRules → Bool → List EnumValue → List Selector
unfolding selectors remove_if apply_const apply_in apply_not_in
apply_rules r allow_zero values =
    apply_not_in r.not_in (apply_in r.within (apply_const r.const (selectors allow_zero values)))

pub enum_any_of : Bool → EnumRules → Bool → Bool → List EnumValue → List EnumMember
unfolding hidden_names kept_names enum_numbers apply_rules
enum_any_of strict r allow_zero hide_zero values =
    let ss = apply_rules r allow_zero values in
    hidden_names hide_zero ss
    ++ (if_any (kept_names hide_zero ss)
        ++ (if strict then [] else map numbers (enum_numbers r allow_zero ss)))

abbrev member_entries : EnumMember → Entries
member_entries (hidden_name s) =
    put "pattern" (text ("^" ⧺ s ⧺ "$")) (put "type" (text "string") empty)
member_entries (names ss) = put "enum" (array (text_items ss)) (put "type" (text "string") empty)
member_entries (numbers k) = put_keywords k empty

abbrev put_members : List EnumMember → Entries → Entries
put_members [] schema = put "anyOf" (array (object_items [])) schema
put_members (m ∷ []) schema = copy (member_entries m) schema
put_members (m ∷ n ∷ ms) schema =
    put "anyOf" (array (object_items (map member_entries (m ∷ n ∷ ms)))) schema

-- `allowZero` and `hideZero`
pub allow_zero : Field → Bool → Option Rules → Bool
allow_zero field implicit_presence rules =
    field.has_presence || implicit_presence || not (required rules) || zero_ignored rules

pub hide_zero : Options → Field → Bool → Option Rules → Bool
unfolding allow_zero
hide_zero p field implicit_presence rules =
    not (field.has_presence || implicit_presence)
    && allow_zero field implicit_presence rules
    && not p.strict

pub generate_enum_validation : Options → Field → EnumType → Bool → Option Rules → Entries → Entries
unfolding enum_any_of allow_zero hide_zero generate_default
generate_enum_validation p field type implicit_presence rules schema =
    let members =
      enum_any_of p.strict (of_enum (type_rules rules)) (allow_zero field implicit_presence rules)
        (hide_zero p field implicit_presence rules) type.values in
    generate_default p field implicit_presence rules
      (put "title" (text (name_to_title type.name)) (put_members members schema))
