-- ===== src/Schema/Choices.antt =====
-- `GeneratorOption` and `NewGenerator`, the options that `Tools` gives (grpcmcp/server.go), and
-- `getRef`, which has no caller.
use Prim.Native.String.{String}
use grpcmcp.Base.{
  ◌≡◌, refl, Bool, true, false, not, ◌&&◌, ◌||◌, List, [], ◌∷◌, arith, ◌==◌, if◌then◌else◌,
}
use grpcmcp.Schema.Fields.{Options}
use grpcmcp.Schema.Generate.{get_id}
use grpcmcp.Schema.Values.{Generator}

-- the functions that make an option
pub data GeneratorOption : Type 0 where
  with_json_names with_additional_properties with_string_only_64_bit_integers : GeneratorOption
  with_strict with_bundle : GeneratorOption

-- the option, called on a generator
unfoldable pub apply_option : GeneratorOption → Options → Options
apply_option with_json_names p = record p { use_json_names = true }
apply_option with_additional_properties p = record p { additional_properties = true }
apply_option with_string_only_64_bit_integers p = record p { string_only_64_bit_integers = true }
apply_option with_strict p = record p { strict = true }
apply_option with_bundle p = record p { bundle = true }

unfoldable pub apply_options : List GeneratorOption → Options → Options
unfolding apply_option
apply_options [] p = p
apply_options (opt ∷ opts) p = apply_options opts (apply_option opt p)

-- the settings of a new generator, whose tables are empty
unfoldable pub new_generator : List GeneratorOption → Options
unfolding apply_options
new_generator opts = apply_options opts (record {
  use_json_names = false;
  additional_properties = false;
  string_only_64_bit_integers = false;
  strict = false;
  bundle = false;
})

-- `schemaOpts` of `Tools`
unfoldable pub schema_opts : Bool → List GeneratorOption
schema_opts string64 = if string64 then with_string_only_64_bit_integers ∷ [] else []

-- `parent` and `message` are the full names of the field's own message and of the one it refers to
unfoldable pub get_ref : Generator → String → String → String
get_ref g parent message =
    if not g.options.bundle && parent == message then "#" else get_id g message false

-- whether an option is among others
abbrev is_option : GeneratorOption → GeneratorOption → Bool
is_option with_json_names with_json_names = true
is_option with_additional_properties with_additional_properties = true
is_option with_string_only_64_bit_integers with_string_only_64_bit_integers = true
is_option with_strict with_strict = true
is_option with_bundle with_bundle = true
is_option _ _ = false

abbrev pub gives : List GeneratorOption → GeneratorOption → Bool
gives [] o = false
gives (opt ∷ opts) o = is_option opt o || gives opts o

-- the settings with those that the options turn on
abbrev turned_on : List GeneratorOption → Options → Options
turned_on opts p = record {
  use_json_names = p.use_json_names || gives opts with_json_names;
  additional_properties = p.additional_properties || gives opts with_additional_properties;
  string_only_64_bit_integers =
      p.string_only_64_bit_integers || gives opts with_string_only_64_bit_integers;
  strict = p.strict || gives opts with_strict;
  bundle = p.bundle || gives opts with_bundle;
}

apply_options_lem :
    (opts : List GeneratorOption) (p : Options) → apply_options opts p ≡ turned_on opts p
unfolding apply_options apply_option
apply_options_lem [] p = ground arith
apply_options_lem (with_json_names ∷ opts) p =
    ground (arith, apply_options_lem opts (apply_option with_json_names p))
apply_options_lem (with_additional_properties ∷ opts) p =
    ground (arith, apply_options_lem opts (apply_option with_additional_properties p))
apply_options_lem (with_string_only_64_bit_integers ∷ opts) p =
    ground (arith, apply_options_lem opts (apply_option with_string_only_64_bit_integers p))
apply_options_lem (with_strict ∷ opts) p =
    ground (arith, apply_options_lem opts (apply_option with_strict p))
apply_options_lem (with_bundle ∷ opts) p =
    ground (arith, apply_options_lem opts (apply_option with_bundle p))

-- A new generator has each setting turned on exactly if its option is given, in whatever order and
-- however often.
pub new_generator_lem :
    (opts : List GeneratorOption)
    → new_generator opts ≡ record {
      use_json_names = gives opts with_json_names;
      additional_properties = gives opts with_additional_properties;
      string_only_64_bit_integers = gives opts with_string_only_64_bit_integers;
      strict = gives opts with_strict;
      bundle = gives opts with_bundle;
    }
unfolding new_generator
new_generator_lem opts = apply_options_lem opts _

-- The input schema of a tool has strings alone for 64-bit integers exactly as configured, and none of
-- the other settings.
pub schema_opts_lem :
    (string64 : Bool)
    → new_generator (schema_opts string64) ≡ record {
      use_json_names = false;
      additional_properties = false;
      string_only_64_bit_integers = string64;
      strict = false;
      bundle = false;
    }
unfolding schema_opts new_generator apply_options apply_option
schema_opts_lem true = refl
schema_opts_lem false = refl
