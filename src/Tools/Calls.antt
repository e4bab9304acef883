-- ===== src/Tools/Calls.antt =====
-- What one call of a tool sends to the backend, and what it answers.
use grpcmcp.Base.{ℕ, String, ◌≡◌, refl, ◌⊎◌, inl, inr, [], ◌∷◌}
use grpcmcp.Base.Results.{Result, ok, err}
use grpcmcp.Header.{Header}
use grpcmcp.Forward.{Heap, load, Provider, add_headers}
use grpcmcp.Tools.{tool_error, Called, reply_of, call_with, with_message, with_body, tool_handler}

module _ {M : Type 0} (arguments : Result String String) (unmarshal : String → Result String M)
    (request_header : Header) (call_unary : Header → M → Result String M)
    (marshal : M → Result String String) where
  -- no request was sent, and the client is told of an error
  abbrev pub IsRefused : Called M → Type 0
  IsRefused c = (c.sent ≡ []) × ((e : String) × (c.result ≡ tool_error e))

  -- what one request to the backend takes: the message and the headers
  pub record Ready (headers : Provider) (inbound : Header) (heap : Heap) : Type 0 where
    pub body : String
    pub encoded : arguments ≡ ok body
    pub msg : M
    pub decoded : unmarshal body ≡ ok msg
    pub heap' : Heap
    pub pointer : ℕ
    pub provided : headers inbound heap ≡ (heap', ok pointer)

  abbrev pub IsSent : (headers : Provider) (inbound : Header) (heap : Heap) → Called M → Type 0
  IsSent headers inbound heap c =
      (r : Ready headers inbound heap) × (c.heap ≡ r.heap')
      × (c.sent ≡ (add_headers request_header (load r.heap' r.pointer), r.msg) ∷ [])
      × (c.result
          ≡ reply_of arguments unmarshal request_header call_unary marshal
              (call_unary (add_headers request_header (load r.heap' r.pointer)) r.msg))

  call_with_cases :
      (headers : Provider) (inbound : Header) (heap : Heap) (b : String) (msg : M)
      → arguments ≡ ok b
      → unmarshal b ≡ ok msg
      → (p : Heap × Result String ℕ) → headers inbound heap ≡ p
      → IsRefused (call_with arguments unmarshal request_header call_unary marshal msg p)
        ⊎ IsSent headers inbound heap
            (call_with arguments unmarshal request_header call_unary marshal msg p)
  unfolding call_with
  call_with_cases headers inbound heap b msg h k (heap', err e) p = inl (refl, (e, refl))
  call_with_cases headers inbound heap b msg h k (heap', ok q) p = inr (
    record {
      body = b;
      encoded = h;
      msg = msg;
      decoded = k;
      heap' = heap';
      pointer = q;
      provided = p;
    },
    refl,
    refl,
    refl,
  )

  with_message_cases :
      (headers : Provider) (inbound : Header) (heap : Heap) (b : String)
      → arguments ≡ ok b
      → (m : Result String M) → unmarshal b ≡ m
      → IsRefused (
          with_message arguments unmarshal request_header call_unary marshal headers inbound heap m)
        ⊎ IsSent headers inbound heap (
            with_message arguments unmarshal request_header call_unary marshal headers inbound heap
              m)
  unfolding with_message
  with_message_cases headers inbound heap b h (err e) k = inl (refl, (e, refl))
  with_message_cases headers inbound heap b h (ok msg) k =
      call_with_cases headers inbound heap b msg h k (headers inbound heap) refl

  with_body_cases :
      (headers : Provider) (inbound : Header) (heap : Heap) (a : Result String String)
      → arguments ≡ a
      → IsRefused
          (with_body arguments unmarshal request_header call_unary marshal headers inbound heap a)
        ⊎ IsSent headers inbound heap
            (with_body arguments unmarshal request_header call_unary marshal headers inbound heap a)
  unfolding with_body
  with_body_cases headers inbound heap (err e) h = inl (refl, (e, refl))
  with_body_cases headers inbound heap (ok b) h =
      with_message_cases headers inbound heap b h (unmarshal b) refl

  -- A call either sends nothing and answers with an error, or has encoded and decoded its arguments
  -- and has headers from the provider: then it sends exactly one request, with that message and those
  -- headers added to the request's own, and answers with what the backend replied to it.
  pub tool_handler_cases :
      (headers : Provider) (inbound : Header) (heap : Heap)
      → IsRefused
          (tool_handler arguments unmarshal request_header call_unary marshal headers inbound heap)
        ⊎ IsSent headers inbound heap (
            tool_handler arguments unmarshal request_header call_unary marshal headers inbound heap)
  unfolding tool_handler
  tool_handler_cases headers inbound heap = with_body_cases headers inbound heap arguments refl
