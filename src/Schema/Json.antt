-- ===== src/Schema/Json.antt =====
-- The schemas as the generator builds them: `map[string]any` as JSON objects, and how the keywords of
-- a number schema are written into one.
use Prim.Native.String.{String}
use grpcmcp.Base.{
  ◌≡◌, refl, Bool, Option, none, some, List, [], ◌∷◌, arith, ◌==◌, eq_iff, if◌then◌else◌,
}
use grpcmcp.Base.Int.{ℤ}
use grpcmcp.Schema.Floats.{Float}
use grpcmcp.Schema.Keywords.{TypeName, integer, string, number, boolean, Keywords, Schema}

mutual
  pub data Json : Type 0 where
    flag : Bool → Json
    whole : ℤ → Json
    real : Float → Json
    text : String → Json
    array : Items → Json
    object : Entries → Json

  pub data Items : Type 0 where
    nil : Items
    cons : Json → Items → Items

  pub data Entries : Type 0 where
    empty : Entries
    entry : String → Json → Entries → Entries

-- `schema[key]`, and `schema[key] = value`
unfoldable pub find : String → Entries → Option Json
find key empty = none
find key (entry k v rest) = if k == key then some v else find key rest

unfoldable pub put : String → Json → Entries → Entries
put key value empty = entry key value empty
put key value (entry k v rest) =
    let later = put key value rest in if k == key then entry key value rest else entry k v later

pub find-put :
    (key other : String) (value : Json) (entries : Entries)
    → find other (put key value entries) ≡ (if key == other then some value else find other entries)
unfolding find put
find-put key other value empty = refl
find-put key other value (entry k v rest) =
    ground (arith, find-put key other value rest, eq_iff k key, eq_iff k other, eq_iff key other)

-- `delete(schema, key)`
unfoldable pub remove : String → Entries → Entries
remove key empty = empty
remove key (entry k v rest) =
    let later = remove key rest in if k == key then later else entry k v later

pub find-remove :
    (key other : String) (entries : Entries)
    → find other (remove key entries) ≡ (if key == other then none else find other entries)
unfolding find remove
find-remove key other empty = ground arith
find-remove key other (entry k v rest) =
    ground (arith, find-remove key other rest, eq_iff k key, eq_iff k other, eq_iff key other)

-- the keys of an object
abbrev pub keys : Entries → List String
keys empty = []
keys (entry k v rest) = k ∷ keys rest

-- `maps.Copy(target, source)`
unfoldable pub copy : Entries → Entries → Entries
copy empty target = target
copy (entry k v rest) target = copy rest (put k v target)

abbrev pub put_some {ℓ} : {A : Type ℓ} → String → (A → Json) → Option A → Entries → Entries
put_some key f none schema = schema
put_some key f (some a) schema = put key (f a) schema

abbrev pub text_items : List String → Items
text_items [] = nil
text_items (s ∷ ss) = cons (text s) (text_items ss)

abbrev pub whole_items : List ℤ → Items
whole_items [] = nil
whole_items (z ∷ zs) = cons (whole z) (whole_items zs)

abbrev pub real_items : List Float → Items
real_items [] = nil
real_items (x ∷ xs) = cons (real x) (real_items xs)

abbrev pub object_items : List Entries → Items
object_items [] = nil
object_items (s ∷ ss) = cons (object s) (object_items ss)

abbrev pub type_text : TypeName → Json
type_text integer = text "integer"
type_text string = text "string"
type_text number = text "number"
type_text boolean = text "boolean"

unfoldable pub put_keywords : Keywords → Entries → Entries
put_keywords k schema =
    let s1 = put_some "type" type_text k.type_name schema in
    let s2 = put_some "minimum" whole k.minimum s1 in
    let s3 = put_some "exclusiveMinimum" whole k.exclusive_minimum s2 in
    let s4 = put_some "maximum" whole k.maximum s3 in
    let s5 = put_some "exclusiveMaximum" whole k.exclusive_maximum s4 in
    let s6 = put_some "enum" (λ zs. array (whole_items zs)) k.int_enum s5 in
    put_some "pattern" text k.pattern s6

abbrev pub keyword_items : List Keywords → Items
keyword_items [] = nil
keyword_items (k ∷ ks) = cons (object (put_keywords k empty)) (keyword_items ks)

abbrev pub put_any : List Keywords → Entries → Entries
put_any [] schema = schema
put_any (k ∷ ks) schema = put "anyOf" (array (keyword_items (k ∷ ks))) schema

-- the schema of a number field, written into the object
unfoldable pub put_schema : Schema → Entries → Entries
unfolding put_keywords
put_schema s schema = put_any s.any_of (put_keywords s.own schema)
