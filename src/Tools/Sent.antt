-- ===== src/Tools/Sent.antt =====
-- Which headers a call of a tool sends, when its provider is that of `main`.
use mathlib.Core.Path.{subst}
use mathlib.Core.List.{Memᴰ}
use grpcmcp.Base.{ℕ, String, ◌≡◌, ◌≢◌, sym, ap, ◌∙◌, inl, inr, Bool, none, List, [], ◌∷◌, length}
use grpcmcp.Base.Results.{Result, ok}
use grpcmcp.Header.{Header, get}
use grpcmcp.Forward.{Heap, load, headers_provider, add_headers, check_collisions}
use grpcmcp.Forward.Adding.{get-add_headers}
use grpcmcp.Forward.Formed.{AllFormed, AllFormed-load, headers_provider-AllFormed}
use grpcmcp.Forward.Outbound.{trusted_headers}
use grpcmcp.Forward.Trust.{headers_provider-Gives}
use grpcmcp.Tools.{tool_handler}
use grpcmcp.Tools.Calls.{tool_handler_cases}

module _ {M : Type 0} (arguments : Result String String) (unmarshal : String → Result String M)
    (request_header : Header) (call_unary : Header → M → Result String M)
    (marshal : M → Result String String) where
  -- what every request has under a name that is configured, and that the checks for collisions let pass
  pub sent-get :
      (p : ℕ) (op : Bool) (names : List String) (inbound : Header) (heap : Heap) (k : String)
      (request : Header × M)
      → AllFormed heap
      → check_collisions (load heap p) names op ≡ none
      → get (load heap p) k ≢ ""
      → Memᴰ request
          (tool_handler arguments unmarshal request_header call_unary marshal
            (headers_provider p op names)
            inbound
            heap).sent
      → get request.0 k ≡ get (load heap p) k
  sent-get p op names inbound heap k request formed apart configured member =
      elim (tool_handler_cases arguments unmarshal request_header call_unary marshal
        (headers_provider p op names) inbound heap) [
          | inl (nothing, _) ↦ elim (subst (Memᴰ request) nothing member) [ ]
          | inr (r, _, sent, _) ↦
              ap (λ x. get x.0 k) (only (subst (Memᴰ request) sent member))
              ∙ at r.heap' r.pointer r.provided
        ]
    where
      only : {x y : Header × M} → Memᴰ x (y ∷ []) → x ≡ y
      only (Memᴰ.head e) = e
      only (Memᴰ.tail h) = elim h [ ]

      -- the map that the provider returned
      at :
          (heap' : Heap) (q : ℕ)
          → headers_provider p op names inbound heap ≡ (heap', ok q)
          → get (add_headers request_header (load heap' q)) k ≡ get (load heap p) k
      at heap' q e =
          let given = headers_provider-Gives p op names inbound heap in
          let here : q ≡ length heap = cc (given.pointer, e) in
          let heaps : heap' ≡ (headers_provider p op names inbound heap).0 =
            sym (ap (λ r. r.0) e) in
          let value : get (load heap' q) k ≡ get (load heap p) k =
            ap (λ h. get (load h q) k) heaps
            ∙ ap (λ n. get (load (headers_provider p op names inbound heap).0 n) k) here
            ∙ trusted_headers p op names inbound heap k apart configured in
          get-add_headers request_header (load heap' q) k
            (AllFormed-load heap' q (
              subst AllFormed (sym heaps)
                (headers_provider-AllFormed p op names inbound heap formed)))
            (λ empty. configured (sym value ∙ empty))
          ∙ value
