-- ===== src/Descriptor.antt =====
-- The protobuf descriptors that grpcmcp/server.go and main.go read: files, services and methods as
-- the generated descriptorpb and protoreflect accessors give them.
use grpcmcp.Base.{ℕ, String, Bool, List}

-- descriptorpb.MethodOptions_IdempotencyLevel
pub data Idempotency : Type 0 where
  idempotency_unknown no_side_effects idempotent : Idempotency

pub record Method : Type 0 where
  pub name : String
  -- the full name of the input message
  pub input : String
  pub is_streaming_client : Bool
  pub is_streaming_server : Bool
  pub idempotency_level : Idempotency
  -- the options, as proto.Marshal encodes them
  pub options : List ℕ
  -- the source comments of the method
  pub leading_comments : String
  pub trailing_comments : String

pub record Service : Type 0 where
  pub full_name : String
  pub name : String
  pub methods : List Method

pub record FileProto : Type 0 where
  pub name : String
  pub dependency : List String
  pub services : List Service
