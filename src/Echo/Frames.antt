-- ===== src/Echo/Frames.antt =====
-- The frames that the handler reads and writes.
use Prim.Native.String.{String}
use grpcmcp.Base.{
  ℕ, ◌+◌, ◌*◌, ◌/◌, ◌%◌, ◌≤◌, ◌<◌, ◌≡◌, refl, ap, ◌∙◌, Option, some, List, [], ◌∷◌, length, All,
  arith,
}
use grpcmcp.Echo.{
  max_frame_length, read_full, frame_length, frame, echoed, respond, read_payload, echo_handler,
  with_user,
}

-- Whatever the request claims its frame to hold, no buffer that is allocated to read it is longer
-- than the limit.
pub echo_handler-buffers :
    (unmarshal : List ℕ → Option String) (marshal : String → Option (List ℕ))
    (forwarded_user : String) (body : List ℕ)
    → All
        (λ size. size ≤ max_frame_length)
        (echo_handler unmarshal marshal forwarded_user body).buffers
unfolding echo_handler
echo_handler-buffers unmarshal marshal forwarded_user body = ground arith

read_full-length : (payload : List ℕ) → read_full (length payload) payload ≡ some (payload, [])
unfolding read_full
read_full-length [] = refl
read_full-length (b ∷ payload) = ground (arith, read_full-length payload)

frame_length-digits :
    (n : ℕ)
    → n < 4294967296
    → n / 16777216 * 16777216 + n / 65536 % 256 * 65536 + n / 256 % 256 * 256 + n % 256 ≡ n
frame_length-digits n h = omega arith

frame_length-frame :
    (payload : List ℕ)
    → length payload ≤ max_frame_length
    → frame_length (frame payload) ≡ length payload
unfolding frame_length frame
frame_length-frame payload short =
    frame_length-digits (length payload % 4294967296) (omega arith) ∙ omega arith

module _ (unmarshal : List ℕ → Option String) (marshal : String → Option (List ℕ)) where
  read_payload-echoed :
      (forwarded_user : String) (payload : List ℕ) (message : String) (bytes : List ℕ)
      → length payload ≤ max_frame_length
      → unmarshal payload ≡ some message
      → marshal (with_user message forwarded_user) ≡ some bytes
      → (read_payload unmarshal marshal forwarded_user (length payload) payload).answer
        ≡ echoed (frame bytes)
  unfolding respond
  read_payload-echoed forwarded_user payload message bytes short request response =
      ground (arith, short, read_full-length payload, request, response)

-- A frame that the handler writes, sent back to it as a request, is read as the bytes that it holds,
-- and answered with the frame of the response to them: if these are not more than the limit.
pub echo_handler-frame :
    (unmarshal : List ℕ → Option String) (marshal : String → Option (List ℕ))
    (forwarded_user : String) (payload : List ℕ) (message : String) (bytes : List ℕ)
    → length payload ≤ max_frame_length
    → unmarshal payload ≡ some message
    → marshal (with_user message forwarded_user) ≡ some bytes
    → (echo_handler unmarshal marshal forwarded_user (frame payload)).answer ≡ echoed (frame bytes)
unfolding echo_handler frame read_full frame_length
echo_handler-frame unmarshal marshal forwarded_user payload message bytes short request response =
    ap (λ n. (read_payload unmarshal marshal forwarded_user n payload).answer)
      (frame_length-frame payload short)
    ∙ read_payload-echoed unmarshal marshal forwarded_user payload message bytes short request
        response
