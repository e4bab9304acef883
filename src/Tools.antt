-- ===== src/Tools.antt =====
-- grpcmcp/server.go: `Tools`, `toolAnnotations` and `toolHandler`. The protobuf registry, the JSON
-- of an input schema, and the client of the backend are parameters; the header provider is that of
-- Forward, so that a handler runs over the heap of header maps.
pub mod Exposed
pub mod Resolved
pub mod Total
pub mod Schemas
pub mod Named
pub mod Sent
pub mod Server
pub mod Calls
pub mod Answers
pub mod Examples
use Prim.Native.String
use grpcmcp.Base.{
  ℕ, String, Bool, true, false, not, ◌&&◌, ◌||◌, Option, none, some, List, [], ◌∷◌, ◌++◌, ◌==◌,
  if◌then◌else◌,
}
use grpcmcp.Base.Texts.{◌⧺◌, join}
use grpcmcp.Base.Results.{Result, ok, err, ◌>>=◌}
use grpcmcp.Descriptor.{
  Idempotency, idempotency_unknown, no_side_effects, idempotent, Method, Service, FileProto,
}
use grpcmcp.Naming.{Registries, selected, replace_dots}
use grpcmcp.Header.{Header}
use grpcmcp.Forward.{Heap, load, Provider, add_headers}

-- mcp.ToolAnnotation: a hint that is not set is nil
pub record ToolAnnotation : Type 0 where
  pub read_only_hint : Option Bool
  pub destructive_hint : Option Bool
  pub idempotent_hint : Option Bool

unfoldable pub tool_annotations : Idempotency → ToolAnnotation
tool_annotations no_side_effects = record {
  read_only_hint = some true;
  destructive_hint = some false;
  idempotent_hint = some true;
}
tool_annotations idempotent = record {
  read_only_hint = some false;
  destructive_hint = none;
  idempotent_hint = some true;
}
tool_annotations idempotency_unknown = record {
  read_only_hint = none;
  destructive_hint = none;
  idempotent_hint = none;
}

-- a tool, with the path of the procedure that its client calls and the method of its handler
pub record ServerTool : Type 0 where
  pub name : String
  pub description : String
  pub raw_schema : String
  pub annotations : ToolAnnotation
  pub procedure : String
  pub method : Method

pub record Config : Type 0 where
  pub descriptors : Option (List FileProto)
  pub services : List String
  pub string64 : Bool
  pub method_filter : Option (Method → Bool)
  pub tool_name : Option (Service → Method → String)
  pub method_description : Option (Method → String)

abbrev non_empty : String → List String
non_empty s = if s == "" then [] else s ∷ []

unfoldable pub procedure_of : Service → Method → String
procedure_of s m = "/" ⧺ s.full_name ⧺ "/" ⧺ m.name

-- the two checks on a method in `Tools`
unfoldable pub offered : Option (Method → Bool) → Method → Bool
offered filter m =
    if m.is_streaming_client || m.is_streaming_server
    then false
    else elim filter [ none ↦ true | some f ↦ f m ]

-- `trim_space` is strings.TrimSpace; `input_schema` is the JSON of `buf.Generate` of a method's
-- input message, or the error of its encoding.
module _ {R : Type 0} (lib : Registries R) (trim_space : String → String)
    (input_schema : Bool → Method → Result String String) where
  abbrev custom_description : Option (Method → String) → Method → List String
  custom_description none m = []
  custom_description (some f) m = non_empty (trim_space (f m))

  abbrev comment : String → List String
  comment s = if s == "" then [] else trim_space s ∷ []

  unfoldable pub description_of : Config → Method → String
  description_of cfg m = join " | " (
      custom_description cfg.method_description m
      ++ comment m.leading_comments
      ++ comment m.trailing_comments)

  abbrev pub name_by : Option (Service → Method → String) → Service → Method → String
  name_by none s m = replace_dots (s.full_name ⧺ "__" ⧺ m.name)
  name_by (some f) s m = f s m

  unfoldable pub tool_of : Config → Service → Method → Result String ServerTool
  unfolding procedure_of description_of
  tool_of cfg s m = input_schema cfg.string64 m >>= λ raw. ok (record {
    name = name_by cfg.tool_name s m;
    description = description_of cfg m;
    raw_schema = raw;
    annotations = tool_annotations m.idempotency_level;
    procedure = procedure_of s m;
    method = m;
  })

  -- the three loops, with the tools so far
  unfoldable pub tools_of_methods :
      Config → Service → List Method → List ServerTool → Result String (List ServerTool)
  unfolding tool_of
  tools_of_methods cfg s [] tools = ok tools
  tools_of_methods cfg s (m ∷ ms) tools =
      if offered cfg.method_filter m
      then (tool_of cfg s m >>= λ t. tools_of_methods cfg s ms (tools ++ t ∷ []))
      else tools_of_methods cfg s ms tools

  unfoldable pub tools_of_services :
      Config → List Service → List ServerTool → Result String (List ServerTool)
  tools_of_services cfg [] tools = ok tools
  tools_of_services cfg (s ∷ ss) tools =
      if selected cfg.services s
      then (tools_of_methods cfg s s.methods tools >>= λ ts. tools_of_services cfg ss ts)
      else tools_of_services cfg ss tools

  abbrev pub register_new : R → FileProto → Result String R
  register_new reg desc = if lib.has_path reg desc.name then ok reg else lib.register_file reg desc

  unfoldable pub tools_of_files :
      Config → List FileProto → R → List ServerTool → Result String (List ServerTool)
  tools_of_files cfg [] reg tools = ok tools
  tools_of_files cfg (f ∷ fs) reg tools = lib.new_file f reg >>= λ desc.
      register_new reg desc >>= λ reg'.
      tools_of_services cfg desc.services tools >>= λ ts. tools_of_files cfg fs reg' ts

  abbrev pub tools_of : Config → Option (List FileProto) → Result String (List ServerTool)
  tools_of cfg none = err "descriptors are required"
  tools_of cfg (some []) = err "descriptors are required"
  tools_of cfg (some (f ∷ fs)) = tools_of_files cfg (f ∷ fs) lib.empty []

  unfoldable pub tools : Config → Result String (List ServerTool)
  unfolding tools_of_files
  tools cfg = tools_of cfg cfg.descriptors

-- mcp.CallToolResult
pub data ToolResult : Type 0 where
  tool_error : String → ToolResult
  text : String → ToolResult

-- what one call of a handler leaves: the heap, the requests that went to the backend, the result
pub record Called (M : Type 0) : Type 0 where
  pub heap : Heap
  pub sent : List (Header × M)
  pub result : ToolResult

module _ {M : Type 0} (arguments : Result String String) (unmarshal : String → Result String M)
    (request_header : Header) (call_unary : Header → M → Result String M)
    (marshal : M → Result String String) where
  abbrev pub reply_of : Result String M → ToolResult
  reply_of (err e) = tool_error e
  reply_of (ok resp) = elim (marshal resp) [ err e ↦ tool_error e | ok res ↦ text res ]

  abbrev pub refuse : Heap → String → Called M
  refuse heap e = record { heap = heap; sent = []; result = tool_error e }

  -- what follows the call of the provider
  unfoldable pub call_with : M → Heap × Result String ℕ → Called M
  call_with msg (heap, err e) = refuse heap e
  call_with msg (heap, ok q) =
      let header = add_headers request_header (load heap q) in
      record { heap = heap; sent = (header, msg) ∷ []; result = reply_of (call_unary header msg) }

  unfoldable pub with_message : Provider → Header → Heap → Result String M → Called M
  unfolding call_with
  with_message headers inbound heap (err e) = refuse heap e
  with_message headers inbound heap (ok msg) = call_with msg (headers inbound heap)

  unfoldable pub with_body : Provider → Header → Heap → Result String String → Called M
  unfolding with_message
  with_body headers inbound heap (err e) = refuse heap e
  with_body headers inbound heap (ok b) = with_message headers inbound heap (unmarshal b)

  -- `arguments` is the JSON of the request's arguments, or the error of its encoding.
  unfoldable pub tool_handler : Provider → Header → Heap → Called M
  unfolding with_body
  tool_handler headers inbound heap = with_body headers inbound heap arguments
