-- ===== src/Forward.antt =====
-- The header providers: `StaticHeaders` and `addHeaders` of grpcmcp/server.go, and
-- `operatorIdentityHeaders`, `forwardHeaders` and `headerFlags` of main.go. An http.Header is a
-- pointer to a map, so providers run over a heap: what they return is the pointer to a map.
pub mod Copying
pub mod Trust
pub mod Outbound
pub mod Adding
pub mod Flags
pub mod Formed
mod Examples
use Prim.Native.String
use grpcmcp.Base.{
  ℕ, String, Char, code, Bool, not, ◌&&◌, Option, none, some, List, [], ◌∷◌, ◌++◌, length, eqb,
  ◌==◌, if◌then◌else◌,
}
use grpcmcp.Base.Heaps
use grpcmcp.Base.Results.{Result, ok, err, ◌>>=◌}
use grpcmcp.Header.{Header, get, set, add, del}

abbrev pub Heap : Type 0
Heap = List Header

abbrev pub load : Heap → ℕ → Header
load heap p = Heaps.get_or heap p []

abbrev pub store : Heap → ℕ → Header → Heap
store heap p h = Heaps.set heap p h

-- a provider for one call: the headers of the inbound request, and the heap
abbrev pub Provider : Type 0
Provider = Header → Heap → Heap × Result String ℕ

abbrev pub operator_identity_header : String
operator_identity_header = "X-Operator-Identity"

-- `headers.Clone()` allocates; `p` is the map that was given to `StaticHeaders`.
unfoldable pub static_headers : ℕ → Provider
static_headers p inbound heap = (heap ++ load heap p ∷ [], ok (length heap))

-- `if v := req.Header.Get(name); v != "" { h.Set(name, v) }`, `h` being the map at `q`
unfoldable pub copy_header : String → Header → ℕ → Heap → Heap
copy_header name inbound q heap =
    let v = get inbound name in if v == "" then heap else store heap q (set (load heap q) name v)

unfoldable pub copy_headers : List String → Header → ℕ → Heap → Heap
copy_headers [] inbound q heap = heap
copy_headers (name ∷ names) inbound q heap =
    copy_headers names inbound q (copy_header name inbound q heap)

-- what follows the call of `base` and its error return
abbrev pub after : (ℕ → Heap → Heap) → Heap × Result String ℕ → Heap × Result String ℕ
after f (heap, ok q) = (f q heap, ok q)
after f (heap, err e) = (heap, err e)

unfoldable pub operator_identity_headers : Provider → Provider
operator_identity_headers base inbound heap =
    after (λ q heap'. copy_header operator_identity_header inbound q heap') (base inbound heap)

pub forward_headers : Provider → List String → Provider
forward_headers base names inbound heap =
    after (λ q heap'. copy_headers names inbound q heap') (base inbound heap)

abbrev if_named : List String → Provider → Provider
if_named [] base = base
if_named (name ∷ names) base = forward_headers base (name ∷ names)

-- the provider that `main` puts together
unfoldable pub headers_provider : ℕ → Bool → List String → Provider
headers_provider p forward_operator_identity names =
    let base = static_headers p in
    if_named names (if forward_operator_identity then operator_identity_headers base else base)

-- The two checks of `main` that a forwarded name is not already set by -header or -bearer-env: the
-- name that is refused, if there is one.
unfoldable pub find_collision : Header → List String → Option String
find_collision headers [] = none
find_collision headers (name ∷ names) =
    if get headers name == "" then find_collision headers names else some name

unfoldable pub check_collisions : Header → List String → Bool → Option String
unfolding find_collision
check_collisions headers names forward_operator_identity = elim (find_collision headers names) [
  | some name ↦ some name
  | none ↦
      if forward_operator_identity && not (get headers operator_identity_header == "")
      then some operator_identity_header
      else none
]

add_each : String → List String → Header → Header
add_each k [] dst = dst
add_each k (v ∷ vs) dst = add_each k vs (add dst k v)

-- the body of the loop of `addHeaders`, for the key `k` with its values
copy_values : Header → String → List String → Header
copy_values dst k (v ∷ []) = set dst k v
copy_values dst k [] = del dst k
copy_values dst k (v ∷ w ∷ vs) = add_each k (v ∷ w ∷ vs) (del dst k)

pub add_headers : Header → Header → Header
add_headers dst [] = dst
add_headers dst ((k, vs) ∷ src) = add_headers (copy_values dst k vs) src

-- strings.Cut at the first colon
unfoldable pub cut_colon : String → Option (String × String)
cut_colon String.[] = none
cut_colon (String.◌∷◌ c s) =
    if eqb (code c) b':'
    then some (String.[], s)
    else elim (cut_colon s) [ none ↦ none | some (k, v) ↦ some (String.◌∷◌ c k, v) ]

-- strings.TrimLeft of blanks
trim_left : String → String
trim_left String.[] = String.[]
trim_left (String.◌∷◌ c s) =
    let rest = trim_left s in if eqb (code c) b' ' then rest else String.◌∷◌ c s

-- `headerFlags.Set`, which the -header flag calls once for each occurrence
pub set_header_flag : Header → String → Result String Header
set_header_flag headers value = elim (cut_colon value) [
  | none ↦ err "err invalid header format: expecting `key: value`"
  | some (k, v) ↦ ok (add headers k (trim_left v))
]
