-- ===== src/Naming.antt =====
-- main.go: `buildRegistry`, `buildToolNamer` and `generateToolName`. The registry of protobuf-go is
-- a type parameter with the calls that the code makes of it.
pub mod Counting
pub mod Joined
pub mod Scanned
pub mod Distinct
pub mod Apart
pub mod Examples
use Prim.Native.Char.{code}
use Prim.Native.String
use grpcmcp.Base.{
  ℕ, suc, String, Bool, true, false, not, ◌&&◌, ◌||◌, Option, none, some, List, [], ◌∷◌, ltb, eqb,
  contains, lookup, insert, if◌then◌else◌,
}
use grpcmcp.Base.Texts.{◌⧺◌}
use grpcmcp.Base.Results.{Result, ok, err}
use grpcmcp.Descriptor.{Method, Service, FileProto}

-- strings.ReplaceAll(s, ".", "_")
unfoldable pub replace_dots : String → String
replace_dots String.[] = String.[]
replace_dots (String.◌∷◌ c s) =
    let rest = replace_dots s in if eqb (code c) b'.' then "_" ⧺ rest else String.◌∷◌ c rest

unfoldable pub generate_tool_name : Bool → Bool → String → String → String → String
generate_tool_name short_collision very_short_collision full_service simple_service method =
    if not very_short_collision
    then method
    else if not short_collision
    then simple_service ⧺ "__" ⧺ method
    else replace_dots (full_service ⧺ "__" ⧺ method)

-- the test of a service by the set of names that was asked for
abbrev pub selected : List String → Service → Bool
selected [] s = true
selected (x ∷ xs) s = contains (x ∷ xs) s.full_name

abbrev pub passes : Option (Method → Bool) → Method → Bool
passes none m = true
passes (some filter) m = filter m

unfoldable pub exposed : Option (Method → Bool) → Method → Bool
exposed filter m = not (m.is_streaming_client || m.is_streaming_server) && passes filter m

-- `map[string]int`
abbrev pub or_zero : Option ℕ → ℕ
or_zero none = 0
or_zero (some n) = n

unfoldable pub tally : String → List (String × ℕ) → ℕ
tally k m = or_zero (lookup k m)

unfoldable pub increment : String → List (String × ℕ) → List (String × ℕ)
unfolding tally
increment k m = insert k (suc (tally k m)) m

pub record Counts : Type 0 where
  pub simple_name : List (String × ℕ)
  pub method_name : List (String × ℕ)

module _ (services : List String) (filter : Option (Method → Bool)) where
  -- the loop over the methods of a service, with its `exposed`
  unfoldable pub scan_methods : List Method → Bool → List (String × ℕ) → Bool × List (String × ℕ)
  unfolding exposed
  scan_methods [] found m = (found, m)
  scan_methods (x ∷ xs) found m =
      if exposed filter x
      then scan_methods xs true (increment x.name m)
      else scan_methods xs found m

  unfoldable pub scan_service : Service → Counts → Counts
  scan_service s c =
      if selected services s
      then (let (found, m) = scan_methods s.methods false c.method_name in
          record {
            simple_name = if found then increment s.name c.simple_name else c.simple_name;
            method_name = m;
          })
      else c

  unfoldable pub scan_services : List Service → Counts → Counts
  scan_services [] c = c
  scan_services (s ∷ ss) c = scan_services ss (scan_service s c)

  -- the function that `RangeFiles` calls, for each file in turn
  unfoldable pub scan_files : List FileProto → Counts → Counts
  scan_files [] c = c
  scan_files (f ∷ fs) c = scan_files fs (scan_services f.services c)

abbrev pub no_counts : Counts
no_counts = record { simple_name = []; method_name = [] }

unfoldable pub name_tool : Counts → Service → Method → String
name_tool c s m =
    generate_tool_name (ltb 1 (tally s.name c.simple_name)) (ltb 1 (tally m.name c.method_name))
      s.full_name s.name m.name

-- protoregistry.Files with protodesc.NewFile; a file's descriptor has the accessors of the file.
pub record Registries (R : Type 0) : Type 0 where
  pub empty : R
  pub new_file : FileProto → R → Result String FileProto
  pub has_path : R → String → Bool
  pub register_file : R → FileProto → Result String R
  pub range_files : R → List FileProto

module _ {R : Type 0} (lib : Registries R) where
  -- the registry that a failed registration leaves is the one before it
  abbrev pub or_same : R → Result String R → R
  or_same reg (ok reg') = reg'
  or_same reg (err e) = reg

  abbrev pub add_new : R → Result String FileProto → R
  add_new reg (err e) = reg
  add_new reg (ok fd) =
      if lib.has_path reg fd.name then reg else or_same reg (lib.register_file reg fd)

  unfoldable pub build_registry_from : List FileProto → R → R
  build_registry_from [] reg = reg
  build_registry_from (f ∷ fs) reg = build_registry_from fs (add_new reg (lib.new_file f reg))

  unfoldable pub build_registry : List FileProto → R
  unfolding build_registry_from
  build_registry fds = build_registry_from fds lib.empty

  unfoldable pub build_tool_namer :
      List FileProto → List String → Option (Method → Bool) → Service → Method → String
  build_tool_namer fds services filter =
      name_tool (scan_files services filter (lib.range_files (build_registry fds)) no_counts)
