-- ===== src/Schema/Keywords.antt =====
-- The JSON schemas that the validation functions write: the keywords of one schema object, each
-- there or not, and what it means for a number to satisfy them. In the source a schema object is a
-- `map[string]any`; here a field that is `none` is a key that the map does not hold.
use grpcmcp.Base.{String, Bool, true, false, ◌&&◌, ◌||◌, Option, none, some, List, [], ◌∷◌}
use grpcmcp.Base.Int.{ℤ, ltb_ℤ, leb_ℤ, eqb_ℤ}

pub data TypeName : Type 0 where
  integer string number boolean : TypeName

pub record Keywords : Type 0 where
  pub type_name : Option TypeName
  pub minimum : Option ℤ
  pub exclusive_minimum : Option ℤ
  pub maximum : Option ℤ
  pub exclusive_maximum : Option ℤ
  pub int_enum : Option (List ℤ)
  pub pattern : Option String

abbrev pub no_keywords : Keywords
no_keywords = record {
  type_name = none;
  minimum = none;
  exclusive_minimum = none;
  maximum = none;
  exclusive_maximum = none;
  int_enum = none;
  pattern = none;
}

-- A field's schema: its own keywords, and its `anyOf` (empty where the key is absent).
pub record Schema : Type 0 where
  pub own : Keywords
  pub any_of : List Keywords

abbrev pub empty_schema : Schema
empty_schema = record { own = no_keywords; any_of = [] }

abbrev or_old {ℓ} : {A : Type ℓ} → Option A → Option A → Option A
or_old none old = old
or_old (some a) old = some a

-- `maps.Copy(schema, src)` of a map without `anyOf`
abbrev pub copy_into : Keywords → Schema → Schema
copy_into src s = record s {
  own = record {
    type_name = or_old src.type_name s.own.type_name;
    minimum = or_old src.minimum s.own.minimum;
    exclusive_minimum = or_old src.exclusive_minimum s.own.exclusive_minimum;
    maximum = or_old src.maximum s.own.maximum;
    exclusive_maximum = or_old src.exclusive_maximum s.own.exclusive_maximum;
    int_enum = or_old src.int_enum s.own.int_enum;
    pattern = or_old src.pattern s.own.pattern;
  };
}

-- the end of each number validation: `anyOf` if it has more than one member
abbrev pub put_any_of : List Keywords → Schema → Schema
put_any_of [] s = s
put_any_of (k ∷ []) s = copy_into k s
put_any_of (k ∷ l ∷ ks) s = record s { any_of = k ∷ l ∷ ks }

abbrev pub holds {ℓ} : {A : Type ℓ} → Option A → (A → Bool) → Bool
holds none test = true
holds (some a) test = test a

abbrev pub mem_ℤ : ℤ → List ℤ → Bool
mem_ℤ z [] = false
mem_ℤ z (y ∷ ys) = eqb_ℤ z y || mem_ℤ z ys

-- the type keyword admits an integer
abbrev pub admits_integer : TypeName → Bool
admits_integer integer = true
admits_integer number = true
admits_integer string = false
admits_integer boolean = false

-- The JSON integer `z` is valid against the keywords, as JSON Schema defines them.
abbrev pub accepts : Keywords → ℤ → Bool
accepts k z =
    holds k.type_name admits_integer
    && holds k.minimum (λ m. leb_ℤ m z)
    && holds k.exclusive_minimum (λ m. ltb_ℤ m z)
    && holds k.maximum (λ m. leb_ℤ z m)
    && holds k.exclusive_maximum (λ m. ltb_ℤ z m)
    && holds k.int_enum (mem_ℤ z)

abbrev pub accepts_one : List Keywords → ℤ → Bool
accepts_one [] z = false
accepts_one (k ∷ ks) z = accepts k z || accepts_one ks z

abbrev pub accepts_any : List Keywords → ℤ → Bool
accepts_any [] z = true
accepts_any (k ∷ ks) z = accepts_one (k ∷ ks) z

unfoldable pub schema_accepts : Schema → ℤ → Bool
schema_accepts s z = accepts s.own z && accepts_any s.any_of z
