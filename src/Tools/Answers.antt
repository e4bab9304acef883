-- ===== src/Tools/Answers.antt =====
-- What one call of a tool does, by what its steps answer: the two codecs, the provider of headers, the
-- backend and the codec of the reply.
use grpcmcp.Base.{ℕ, String, ◌≡◌, refl, [], ◌∷◌, lookup}
use grpcmcp.Base.Results.{Result, ok, err}
use grpcmcp.Header.{Header, canonical}
use grpcmcp.Header.Laws.{values}
use grpcmcp.Forward.{Heap, load, Provider, add_headers}
use grpcmcp.Forward.Adding.{IsHeader, overridden, values-add_headers}
use grpcmcp.Tools.{
  tool_error, text, Called, reply_of, call_with, with_message, with_body, tool_handler,
}

module _ {M : Type 0} (arguments : Result String String) (unmarshal : String → Result String M)
    (request_header : Header) (call_unary : Header → M → Result String M)
    (marshal : M → Result String String) where
  -- a step that fails before a request is sent, with its error
  pub data Fails (headers : Provider) (inbound : Header) (heap : Heap) : String → Type 0 where
    bad_arguments : (e : String) → arguments ≡ err e → Fails headers inbound heap e
    bad_message :
        (b e : String) → arguments ≡ ok b → unmarshal b ≡ err e → Fails headers inbound heap e
    no_headers :
        (b : String) (msg : M) (heap' : Heap) (e : String)
        → arguments ≡ ok b
        → unmarshal b ≡ ok msg
        → headers inbound heap ≡ (heap', err e)
        → Fails headers inbound heap e

  -- the steps before the request, where all succeed: the message, and the map of headers
  pub data Readies (headers : Provider) (inbound : Header) (heap : Heap) : M → Header → Type 0 where
    ready :
        (b : String) (msg : M) (heap' : Heap) (p : ℕ)
        → arguments ≡ ok b
        → unmarshal b ≡ ok msg
        → headers inbound heap ≡ (heap', ok p)
        → Readies headers inbound heap msg (load heap' p)

  -- The headers of a request: what the provider gives under a name, and else what was there before.
  abbrev pub IsMerged : Header → Header → Type 0
  IsMerged provided sent =
      IsHeader provided
      → (k : String)
      → values sent k ≡ overridden (lookup (canonical k) provided) (values request_header k)

  -- the client is told what the backend replied, or of an error
  pub record Answers (replied : Result String M) (c : Called M) : Type 0 where
    pub refused : (e : String) → replied ≡ err e → c.result ≡ tool_error e
    pub garbled :
        (msg : M) (e : String) → replied ≡ ok msg → marshal msg ≡ err e → c.result ≡ tool_error e
    pub replied_with :
        (msg : M) (s : String) → replied ≡ ok msg → marshal msg ≡ ok s → c.result ≡ text s

  pub record IsCall (headers : Provider) (inbound : Header) (heap : Heap) (c : Called M)
      : Type 0 where
    pub on_failure :
        (e : String) → Fails headers inbound heap e → (c.sent ≡ []) × (c.result ≡ tool_error e)
    pub on_request :
        (msg : M) (provided : Header)
        → Readies headers inbound heap msg provided
        → (sent : Header) × (c.sent ≡ (sent, msg) ∷ [])
          × IsMerged provided sent
          × Answers (call_unary sent msg) c

  -- Where its arguments cannot be encoded, or not decoded as a message, or the provider has no headers,
  -- a call sends nothing and answers with that error. Else it sends exactly one request, with the decoded
  -- message, which has under each name the values that the provider gives or, where it gives none, those
  -- that the request had before, if the provider's map has canonical and distinct keys; and it answers
  -- with the encoded reply to that request, or with the error of the backend or of the encoding.
  pub tool_handler-IsCall :
      (headers : Provider) (inbound : Header) (heap : Heap)
      → IsCall headers inbound heap
          (tool_handler arguments unmarshal request_header call_unary marshal headers inbound heap)
  unfolding tool_handler with_body with_message call_with
  tool_handler-IsCall headers inbound heap = record { on_failure = failure; on_request = request }
    where
      c : Called M
      c = tool_handler arguments unmarshal request_header call_unary marshal headers inbound heap

      failure :
          (e : String) → Fails headers inbound heap e → (c.sent ≡ []) × (c.result ≡ tool_error e)
      failure e (bad_arguments _ h) = rw h (refl, refl)
      failure e (bad_message b _ h k) = rw h (rw k (refl, refl))
      failure e (no_headers b msg heap' _ h k p) = rw h (rw k (rw p (refl, refl)))

      request :
          (msg : M) (provided : Header)
          → Readies headers inbound heap msg provided
          → (sent : Header) × (c.sent ≡ (sent, msg) ∷ [])
            × IsMerged provided sent
            × Answers (call_unary sent msg) c
      request msg provided (ready b _ heap' p h k e) = rw h (
          rw k (
            rw e (
              add_headers request_header (load heap' p),
              refl,
              (λ formed name. values-add_headers request_header (load heap' p) name formed),
              record {
                refused = λ x broken. rw broken refl;
                garbled = λ m x replied broken. rw replied (rw (broken, reply_of) refl);
                replied_with = λ m s replied encoded. rw replied (rw (encoded, reply_of) refl);
              },
            )))
