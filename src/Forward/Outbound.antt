-- ===== src/Forward/Outbound.antt =====
-- The provider of `main` behind its checks for collisions: one call, and a series of calls.
use grpcmcp.Base.{
  ℕ, ◌<◌, String, ◌≡◌, ◌≢◌, refl, ap, ◌∙◌, Bool, true, none, List, [], ◌∷◌, arith, length, eq_iff,
}
use grpcmcp.Header.{Header, get}
use grpcmcp.Forward.{
  Heap, load, operator_identity_header, headers_provider, find_collision, check_collisions,
}
use grpcmcp.Forward.Copying.{named, get-same_key}
use grpcmcp.Forward.Trust.{expected, headers_provider-Gives}

-- a name that is forwarded is not set, if no collision was found
named-unset :
    (static : Header) (names : List String) (k : String)
    → find_collision static names ≡ none
    → named names k ≡ true
    → get static k ≡ ""
unfolding find_collision named
named-unset static [] k h e = cc
named-unset static (n ∷ ns) k h e =
    ground (arith, eq_iff (get static n) "", get-same_key static n k, named-unset static ns k)

expected-trusted :
    (op : Bool) (names : List String) (inbound static : Header) (k : String)
    → check_collisions static names op ≡ none
    → get static k ≢ ""
    → expected op names inbound static k ≡ get static k
unfolding check_collisions named
expected-trusted op names inbound static k h set = ground (
  arith,
  named-unset static names k,
  get-same_key static operator_identity_header k,
  eq_iff (get static operator_identity_header) "",
)

-- If the configuration passes the checks for collisions, every header that it sets to a value that is
-- not empty is sent with this value, whatever headers the inbound request has.
pub trusted_headers :
    (p : ℕ) (op : Bool) (names : List String) (inbound : Header) (heap : Heap) (k : String)
    → check_collisions (load heap p) names op ≡ none
    → get (load heap p) k ≢ ""
    → get (load (headers_provider p op names inbound heap).0 (length heap)) k ≡ get (load heap p) k
trusted_headers p op names inbound heap k h set =
    (headers_provider-Gives p op names inbound heap).reads k
    ∙ expected-trusted op names inbound (load heap p) k h set

-- each call of a series sends what is expected of it alone
abbrev pub AllExpected : ℕ → Bool → List String → Header → Heap → List Header → Type 0
AllExpected p op names static heap [] = Unit
AllExpected p op names static heap (inbound ∷ rest) =
    ((k : String)
      → get (load (headers_provider p op names inbound heap).0 (length heap)) k
        ≡ expected op names inbound static k)
    × AllExpected p op names static (headers_provider p op names inbound heap).0 rest

all_expected :
    (p : ℕ) (op : Bool) (names : List String) (static : Header) (heap : Heap)
    (requests : List Header)
    → p < length heap
    → load heap p ≡ static
    → AllExpected p op names static heap requests
all_expected p op names static heap [] lt e = tt
all_expected p op names static heap (inbound ∷ rest) lt e =
    let g = headers_provider-Gives p op names inbound heap in
    (
      λ k. g.reads k ∙ ap (λ h. expected op names inbound h k) e,
      all_expected p op names static (headers_provider p op names inbound heap).0 rest
          (omega (arith, g.size)) (g.others p lt ∙ e),
    )

-- In a series of calls each one sends what its own inbound request and the configured headers
-- determine: nothing that an earlier call copied is left in the configured map.
pub calls_isolated :
    (p : ℕ) (op : Bool) (names : List String) (heap : Heap) (requests : List Header)
    → p < length heap
    → AllExpected p op names (load heap p) heap requests
calls_isolated p op names heap requests lt =
    all_expected p op names (load heap p) heap requests lt refl
