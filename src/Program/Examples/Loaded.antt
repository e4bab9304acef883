-- ===== src/Program/Examples/Loaded.antt =====
-- Two files over reflection, and the tool of the second.
use grpcmcp.Base.{refl, [], ◌∷◌, lookup}
use grpcmcp.Naming.Examples.{registries}
use grpcmcp.Reflection.Examples.{
  list_services, file_containing_symbol, close, iterate, files, rank, files_gathered,
  files-IsListing, files_ranked, files-IsClosed,
}
use grpcmcp.Tools.Examples.{config, trim, schema}
use grpcmcp.Tools.Examples.Schemas.{registries-IsRegistry}
use grpcmcp.Program.Reflected.{IsBuilt, tools-load_descriptors}

tools-load_descriptors_example :
    IsBuilt registries trim schema config list_services file_containing_symbol close iterate
unfolding lookup
tools-load_descriptors_example =
    tools-load_descriptors registries trim schema config list_services file_containing_symbol close
      iterate ("pkg.B" ∷ []) files rank "a.proto" refl files_gathered files-IsListing refl (λ e. cc)
      files-IsClosed files_ranked (λ other f reg d h. cc)
      (λ t loaded. (registries-IsRegistry t.ds, λ f h s k chosen m l shown. ("{}", refl)))
