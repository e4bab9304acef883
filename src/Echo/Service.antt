-- ===== src/Echo/Service.antt =====
-- example/echo.go and example/main.go: the descriptor that `buildEchoFile` makes by hand, and the routes
-- that `main` serves. protodesc and protoregistry are an interface, and the handlers of grpchealth and
-- grpcreflect are arguments, each with its path.
use Prim.Native.String.{String}
use grpcmcp.Base.{ℕ, List, [], ◌∷◌}
use grpcmcp.Base.Texts.{◌⧺◌}
use grpcmcp.Base.Results.{Result, ok, ◌>>=◌}

-- `echoServiceName`
abbrev pub echo_service_name : String
echo_service_name = "echo.v1.EchoService"

-- the descriptorpb messages, as far as they are set here
pub data FieldLabel : Type 0 where
  label_optional : FieldLabel

pub data FieldType : Type 0 where
  type_string : FieldType

pub record FieldDescriptorProto : Type 0 where
  pub name : String
  pub number : ℕ
  pub label : FieldLabel
  pub type : FieldType
  pub json_name : String

pub record DescriptorProto : Type 0 where
  pub name : String
  pub field : List FieldDescriptorProto

pub record MethodDescriptorProto : Type 0 where
  pub name : String
  pub input_type : String
  pub output_type : String

pub record ServiceDescriptorProto : Type 0 where
  pub name : String
  pub method : List MethodDescriptorProto

pub record FileDescriptorProto : Type 0 where
  pub name : String
  pub package_name : String
  pub syntax : String
  pub message_type : List DescriptorProto
  pub service : List ServiceDescriptorProto

-- `stringField`
pub string_field : String → ℕ → FieldDescriptorProto
string_field name number = record {
  name = name;
  number = number;
  label = label_optional;
  type = type_string;
  json_name = name;
}

-- `fdProto`
pub echo_file_proto : FileDescriptorProto
unfolding string_field
echo_file_proto = record {
  name = "echo/v1/echo.proto";
  package_name = "echo.v1";
  syntax = "proto3";
  message_type =
      (record { name = "EchoRequest"; field = string_field "message" 1 ∷ [] })
      ∷ (record { name = "EchoResponse"; field = string_field "message" 1 ∷ [] })
      ∷ [];
  service =
      (record {
        name = "EchoService";
        method =
            (record {
              name = "Echo";
              input_type = ".echo.v1.EchoRequest";
              output_type = ".echo.v1.EchoResponse";
            })
            ∷ [];
      })
      ∷ [];
}

-- protodesc.NewFile, and RegisterFile on the registry `R`, for file descriptors `D`
pub record Descriptors (R D : Type 0) : Type 0 where
  pub new_file : FileDescriptorProto → R → Result String D
  pub register_file : R → D → Result String R

-- the file, and the global registry with it; an error is a panic
pub build_echo_file : {R D : Type 0} → Descriptors R D → R → Result String (R × D)
unfolding echo_file_proto
build_echo_file lib global_files = do
  fd ← lib.new_file echo_file_proto global_files
  global_files' ← lib.register_file global_files fd
  ok (global_files', fd)

-- the services that the reflector names
pub reflected_services : String → List String
reflected_services health_service_name = health_service_name ∷ echo_service_name ∷ []

abbrev pub echo_path : String
echo_path = "/" ⧺ echo_service_name ⧺ "/Echo"

-- the routes of the mux, in the order in which they are registered
pub routes : {H : Type 0} → String × H → String × H → String × H → H → List (String × H)
routes health reflector_v1 reflector_v1_alpha echo =
    health ∷ reflector_v1 ∷ reflector_v1_alpha ∷ (echo_path, echo) ∷ []

abbrev pub listen_address : String
listen_address = "localhost:8090"
