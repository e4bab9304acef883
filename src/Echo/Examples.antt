-- ===== src/Echo/Examples.antt =====
-- The example handler on requests of a few bytes.
use Prim.Native.String.{String}
use grpcmcp.Base.{
  ℕ, ◌≤◌, ◌≡◌, refl, Option, none, some, List, [], ◌∷◌, All, arith, eqb, ◌==◌, if◌then◌else◌,
}
use grpcmcp.Naming.Examples.{get_method}
use grpcmcp.Tools.{procedure_of}
use grpcmcp.Echo.Service.{echo_service_name, echo_path}
use grpcmcp.Echo.{max_frame_length, frame, echoed, echo_handler, with_user}
use grpcmcp.Echo.Frames.{echo_handler-buffers, echo_handler-frame}

-- messages of one letter, in one byte
abbrev decode : List ℕ → Option String
decode (b ∷ []) = if eqb b 104 then some "h" else none
decode _ = none

abbrev encode : String → Option (List ℕ)
encode s = if s == "h|ann" then some (105 ∷ []) else none

echo_handler-buffers_example :
    All
      (λ size. size ≤ max_frame_length)
      (echo_handler decode encode "ann" (0 ∷ 255 ∷ 255 ∷ 255 ∷ 255 ∷ [])).buffers
echo_handler-buffers_example =
    echo_handler-buffers decode encode "ann" (0 ∷ 255 ∷ 255 ∷ 255 ∷ 255 ∷ [])

echo_handler-frame_example :
    (echo_handler decode encode "ann" (frame (104 ∷ []))).answer ≡ echoed (frame (105 ∷ []))
unfolding with_user
echo_handler-frame_example =
    echo_handler-frame decode encode "ann" (104 ∷ []) "h" (105 ∷ []) (omega arith) refl refl

frame_of_h :
    (echo_handler decode encode "ann" (frame (104 ∷ []))).answer
    ≡ echoed (0 ∷ 0 ∷ 0 ∷ 0 ∷ 1 ∷ 105 ∷ [])
unfolding echo_handler frame
frame_of_h = refl

-- a tool for the method calls the route of the echo
echo_procedure :
    procedure_of
      (record { full_name = echo_service_name; name = "EchoService"; methods = [] })
      (record get_method { name = "Echo" })
    ≡ echo_path
unfolding procedure_of
echo_procedure = refl
