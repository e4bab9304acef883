-- ===== src/Forward/Trust.antt =====
-- What one call of the provider of `main` sends under each name.
use mathlib.Core.Path.{subst}
use grpcmcp.Base.{
  ℕ, ◌<◌, String, ◌≡◌, refl, sym, ap, ◌∙◌, Bool, true, false, not, ◌&&◌, List, [], ◌∷◌, arith,
  length, ◌==◌, if◌then◌else◌,
}
use grpcmcp.Base.Heaps
use grpcmcp.Base.Results.{Result, ok, err}
use grpcmcp.Header.{Header, get}
use grpcmcp.Forward.{
  Heap, load, operator_identity_header, static_headers, copy_headers, after,
  operator_identity_headers, forward_headers, headers_provider,
}
use grpcmcp.Forward.Copying.{named, overlaid, copy_headers-Keeps, copy_headers-get}

-- the value that the backend is sent under `k`
abbrev pub expected : Bool → List String → Header → Header → String → String
expected forward_operator_identity names inbound static k =
    if named names k && not (get inbound k == "")
    then get inbound k
    else if forward_operator_identity
    then overlaid (operator_identity_header ∷ []) inbound static k
    else get static k

-- The call returned a map of its own, and left every older map as it was.
pub record Gives (value : String → String) (heap : Heap) (reply : Heap × Result String ℕ)
    : Type 0 where
  pub pointer : reply.1 ≡ ok (length heap)
  pub size : length heap < length reply.0
  pub others : (i : ℕ) → i < length heap → load reply.0 i ≡ load heap i
  pub reads : (k : String) → get (load reply.0 (length heap)) k ≡ value k

static_headers-Gives :
    (p : ℕ) (inbound : Header) (heap : Heap)
    → Gives (get (load heap p)) heap (static_headers p inbound heap)
unfolding static_headers
static_headers-Gives p inbound heap = record {
  pointer = refl;
  size = omega (arith, Heaps.length-append heap (load heap p ∷ []));
  others = λ i lt. Heaps.get_or-append_left heap (load heap p ∷ []) i [] lt;
  reads = λ k. ap (λ h. get h k) (Heaps.get_or-append_last heap (load heap p) []);
}

abbrev overlay : List String → Header → (String → String) → String → String
overlay names inbound value k =
    if named names k && not (get inbound k == "") then get inbound k else value k

copied-Gives :
    (names : List String) (inbound : Header) (value : String → String) (heap heap' : Heap)
    → Gives value heap (heap', ok (length heap))
    → Gives
        (overlay names inbound value)
        heap
        (copy_headers names inbound (length heap) heap', ok (length heap))
copied-Gives names inbound value heap heap' g =
    let kept = copy_headers-Keeps names inbound (length heap) heap' in
    record {
      pointer = refl;
      size = omega (arith, g.size, kept.size);
      others = λ i lt. kept.others i (λ e. absurd (omega arith)) ∙ g.others i lt;
      reads = λ k.
          copy_headers-get names inbound (length heap) heap' k g.size
          ∙ ap (λ v. if named names k && not (get inbound k == "") then get inbound k else v)
              (g.reads k);
    }

-- A wrapper that copies names into the map that `base` returned.
copying-Gives :
    (names : List String) (inbound : Header) (value : String → String) (heap : Heap)
    (reply : Heap × Result String ℕ)
    → Gives value heap reply
    → Gives
        (overlay names inbound value)
        heap
        (after (λ q heap'. copy_headers names inbound q heap') reply)
copying-Gives names inbound value heap (heap', ok q) g =
    let e : q ≡ length heap = cc (g.pointer) in
    subst (λ n. Gives (overlay names inbound value) heap (copy_headers names inbound n heap', ok n))
      (sym e)
      (copied-Gives names inbound value heap heap'
        (subst (λ n. Gives value heap (heap', ok n)) e g))
copying-Gives names inbound value heap (heap', err e) g = absurd (cc (g.pointer))

identified-Gives :
    (p : ℕ) (op : Bool) (inbound : Header) (heap : Heap)
    → Gives
        (λ k.
          if op
          then overlaid (operator_identity_header ∷ []) inbound (load heap p) k
          else get (load heap p) k)
        heap
        ((if op then operator_identity_headers (static_headers p) else static_headers p) inbound
          heap)
unfolding operator_identity_headers copy_headers
identified-Gives p true inbound heap =
    copying-Gives (operator_identity_header ∷ []) inbound (get (load heap p)) heap
      (static_headers p inbound heap) (static_headers-Gives p inbound heap)
identified-Gives p false inbound heap = static_headers-Gives p inbound heap

-- A call allocates a map for its headers and leaves every older map as it was. Under each name the
-- new map reads as specified: a forwarded name that the inbound request has takes the inbound value,
-- so does the operator's identity where it is forwarded, and all else is as configured.
pub headers_provider-Gives :
    (p : ℕ) (op : Bool) (names : List String) (inbound : Header) (heap : Heap)
    → Gives
        (expected op names inbound (load heap p))
        heap
        (headers_provider p op names inbound heap)
unfolding headers_provider forward_headers named
headers_provider-Gives p op [] inbound heap = identified-Gives p op inbound heap
headers_provider-Gives p op (name ∷ names) inbound heap =
    copying-Gives (name ∷ names) inbound _ heap _ (identified-Gives p op inbound heap)
