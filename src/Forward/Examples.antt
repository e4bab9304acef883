-- ===== src/Forward/Examples.antt =====
-- A configured token, and a client that sends headers of its own.
use grpcmcp.Base.{◌≡◌, ◌≢◌, refl, true, none, [], ◌∷◌, arith, eq_iff, lookup, contains}
use grpcmcp.Header.{Header, canonical, get}
use grpcmcp.Forward.{Heap, load, headers_provider, find_collision, check_collisions}
use grpcmcp.Forward.Trust.{expected, Gives, headers_provider-Gives}
use grpcmcp.Forward.Outbound.{AllExpected, trusted_headers, calls_isolated}
use grpcmcp.Forward.Adding.{IsHeader}

abbrev static : Header
static = ("Authorization", "Bearer t" ∷ []) ∷ []

abbrev inbound : Header
inbound = ("Authorization", "Bearer mine" ∷ []) ∷ ("X-Operator-Identity", "ann" ∷ []) ∷ []

abbrev heap : Heap
heap = static ∷ []

headers_provider-Gives_example :
    Gives (expected true [] inbound static) heap (headers_provider 0 true [] inbound heap)
headers_provider-Gives_example = headers_provider-Gives 0 true [] inbound heap

no_collision : check_collisions static [] true ≡ none
unfolding check_collisions find_collision get lookup canonical
no_collision = refl

token_set : get static "Authorization" ≢ ""
unfolding get lookup canonical
token_set e = ground (arith, e, eq_iff "Bearer t" "")

trusted_headers_example :
    get (load (headers_provider 0 true [] inbound heap).0 1) "Authorization"
    ≡ get static "Authorization"
trusted_headers_example =
    trusted_headers 0 true [] inbound heap "Authorization" no_collision token_set

calls_isolated_example : AllExpected 0 true [] static heap (inbound ∷ [] ∷ [])
calls_isolated_example = calls_isolated 0 true [] heap (inbound ∷ [] ∷ []) (omega arith)

abbrev outbound : Header
outbound = ("X-Tag", "a" ∷ "b" ∷ []) ∷ []

outbound-IsHeader : IsHeader outbound
unfolding canonical contains
outbound-IsHeader = record { canonical_keys = (refl, tt); distinct = (refl, tt) }
