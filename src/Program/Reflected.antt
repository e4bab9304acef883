-- ===== src/Program/Reflected.antt =====
-- From the backend's reflection to the tools: the order in which files are loaded, the registries that
-- are built from them, and the names.
use grpcmcp.Base.{
  ℕ, String, ◌≡◌, ◌≢◌, refl, Bool, none, some, List, [], ◌∷◌, contains, lookup, map, NoDup, Has,
}
use grpcmcp.Base.Results.{Result, ok}
use grpcmcp.Descriptor.{Method, FileProto}
use grpcmcp.Naming.{Registries, build_tool_namer}
use grpcmcp.Reflection.{Files, Progress, done, gather, load_descriptors}
use grpcmcp.Reflection.Contract.{IsRank}
use grpcmcp.Reflection.Loading.{IsListing}
use grpcmcp.Reflection.Results.{IsClosed, load-IsDescriptorSet, load-DepsFirst, load_total}
use grpcmcp.Reflection.Step.{names}
use grpcmcp.Tools.{ServerTool, Config, tools}
use grpcmcp.Tools.Exposed.{IsFaithful}
use grpcmcp.Tools.Named.{AllPlain, name_of, called, tools-NoDup}
use grpcmcp.Tools.Resolved.{IsRegistry, build_registry-holds}
use grpcmcp.Tools.Total.{AllSchemas, tools-Returns}

-- some file was loaded
names_of_some : (ds : List FileProto) (k : String) → Has (names ds) k → ds ≢ []
unfolding contains
names_of_some [] k h e = cc
names_of_some (d ∷ ds) k h e = cc

module _ {R : Type 0} (lib : Registries R) (trim_space : String → String)
    (input_schema : Bool → Method → Result String String) (cfg : Config)
    (list_services : Result String (List String))
    (file_containing_symbol : String → Result String (List FileProto))
    (close : Result String (Unit {0})) (iterate : Files → List FileProto) where
  -- the configuration with the files, and with the namer of these
  abbrev pub with_files : List FileProto → Config
  with_files ds = record cfg {
    descriptors = some ds;
    tool_name = some (build_tool_namer lib ds cfg.services cfg.method_filter);
  }

  -- the tools that are built after the load, with distinct names if those of the methods are plain
  pub record IsBuilt : Type 0 where
    pub loaded : Progress
    pub succeeds : load_descriptors list_services file_containing_symbol close iterate ≡ done loaded
    pub built : List ServerTool
    pub builds : tools lib trim_space input_schema (with_files loaded.ds) ≡ ok built
    pub names_differ :
        AllPlain lib trim_space input_schema (with_files loaded.ds) loaded.ds
        → NoDup (map called built)
        → NoDup (map name_of built)

  -- If the backend's reflection names a file, closes without an error, names every file that another one
  -- depends on, and has no dependency cycle, then it is loaded and the tools are built from it, where
  -- every input has a schema and the registry behaves as documented; and they have distinct names if the
  -- names of services and methods have no underscore and no two tools call one procedure.
  pub tools-load_descriptors :
      (services : List String) (all : Files) (rank : String → ℕ) (k : String)
      → list_services ≡ ok services
      → gather file_containing_symbol services [] ≡ ok all
      → IsListing all (iterate all)
      → close ≡ ok tt
      → lookup k all ≢ none
      → IsClosed all
      → IsRank rank all
      → ((other : Config) → IsFaithful lib trim_space input_schema other)
      → ((t : Progress)
          → load_descriptors list_services file_containing_symbol close iterate ≡ done t
          → IsRegistry lib t.ds × AllSchemas lib trim_space input_schema cfg t.ds)
      → IsBuilt
  tools-load_descriptors services all rank k listed gathered ranged closed there whole ranked
        faithful documented =
      let (t, done_t) =
        load_total list_services file_containing_symbol close iterate listed gathered ranged closed
          whole in
      let ordered =
        load-DepsFirst list_services file_containing_symbol close iterate listed gathered ranged
          rank ranked done_t in
      let listing =
        load-IsDescriptorSet list_services file_containing_symbol close iterate listed gathered
          ranged done_t in
      let (laws, schemas) = documented t done_t in
      let (ts, made) =
        tools-Returns lib trim_space input_schema (with_files t.ds) laws schemas ordered
          listing.no_dup (names_of_some t.ds k ((listing.names_iff k).1 there)) refl in
      record {
        loaded = t;
        succeeds = done_t;
        built = ts;
        builds = made;
        names_differ = λ plain distinct.
            tools-NoDup lib trim_space input_schema (with_files t.ds) t.ds ts
              (faithful (with_files t.ds)) (build_registry-holds lib laws ordered listing.no_dup)
              plain refl refl made distinct;
      }
