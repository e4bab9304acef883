-- ===== src/Echo.antt =====
-- example/echo.go: `echoHandler`, the handler of the example backend. A byte is a number below 256. The
-- protobuf library is two arguments: `unmarshal` gives the text of the request's message field, and
-- `marshal` the bytes of a response with that text.
pub mod Frames
pub mod Service
mod Examples
use Prim.Native.String.{String}
use grpcmcp.Base.{
  ℕ, zero, suc, ◌+◌, ◌*◌, ◌/◌, ◌%◌, ◌≤◌, ◌≡◌, refl, Bool, true, false, Option, none, some, List, [],
  ◌∷◌, ◌++◌, length, arith, ltb, ◌==◌, if◌then◌else◌,
}
use grpcmcp.Base.Texts.{◌⧺◌}

-- `maxFrameLength`
abbrev pub max_frame_length : ℕ
max_frame_length = 4194304

-- what `io.ReadFull` reads into a buffer of that length, and what is left of the body
unfoldable pub read_full : ℕ → List ℕ → Option (List ℕ × List ℕ)
read_full zero body = some ([], body)
read_full (suc n) [] = none
read_full (suc n) (b ∷ body) = elim (read_full n body) [
  | none ↦ none
  | some (read, rest) ↦ some (b ∷ read, rest)
]

-- `binary.BigEndian.Uint32(header[1:])`, of a header of five bytes
unfoldable pub frame_length : List ℕ → ℕ
frame_length (flags ∷ a ∷ b ∷ c ∷ d ∷ rest) = a * 16777216 + b * 65536 + c * 256 + d
frame_length _ = 0

-- `binary.BigEndian.PutUint32`, behind a zero byte, and the payload
unfoldable pub frame : List ℕ → List ℕ
frame payload =
    let n = length payload % 4294967296 in
    0 ∷ n / 16777216 ∷ n / 65536 % 256 ∷ n / 256 % 256 ∷ n % 256 ∷ payload

-- an answer with its status and text, or the frame that is written with grpc-status 0
pub data Answer : Type 0 where
  http_error : ℕ → String → Answer
  echoed : List ℕ → Answer

-- a handled request: the sizes of the buffers that were allocated to read it, and the answer
pub record Handled : Type 0 where
  pub buffers : List ℕ
  pub answer : Answer

unfoldable pub with_user : String → String → String
with_user message forwarded_user =
    if forwarded_user == "" then message else message ⧺ "|" ⧺ forwarded_user

module _ (unmarshal : List ℕ → Option String) (marshal : String → Option (List ℕ)) where
  -- what follows the reading of the frame
  unfoldable pub respond : String → List ℕ → Answer
  unfolding frame with_user
  respond forwarded_user payload = elim (unmarshal payload) [
    | none ↦ http_error 400 "bad request proto"
    | some message ↦ elim (marshal (with_user message forwarded_user)) [
      | none ↦ http_error 500 "marshal error"
      | some bytes ↦ echoed (frame bytes)
    ]
  ]

  abbrev pub read_payload : String → ℕ → List ℕ → Handled
  read_payload forwarded_user size body =
      if ltb max_frame_length size
      then record { buffers = 5 ∷ []; answer = http_error 413 "frame too large" }
      else record {
        buffers = 5 ∷ size ∷ [];
        answer = elim (read_full size body) [
          | none ↦ http_error 400 "short frame body"
          | some (payload, rest) ↦ respond forwarded_user payload
        ];
      }

  -- the handler, on the header X-Forwarded-User (empty if it is absent) and the body
  unfoldable pub echo_handler : String → List ℕ → Handled
  unfolding read_full frame_length respond
  echo_handler forwarded_user body = elim (read_full 5 body) [
    | none ↦ record { buffers = 5 ∷ []; answer = http_error 400 "short frame header" }
    | some (header, rest) ↦ read_payload forwarded_user (frame_length header) rest
  ]
