-- ===== src/Forward/Copying.antt =====
-- What copying inbound headers does to the map at a pointer, and to the other maps of the heap.
use grpcmcp.Base.{
  ℕ, ◌<◌, String, ◌≡◌, ◌≢◌, refl, sym, ◌∙◌, inl, inr, Bool, true, false, not, ◌&&◌, ◌||◌, List, [],
  ◌∷◌, arith, length, ◌==◌, eq_iff, if◌then◌else◌, Bool-cases,
}
use grpcmcp.Base.Heaps
use grpcmcp.Header.{Header, canonical, get, set}
use grpcmcp.Header.Laws.{same_key, get-set}
use grpcmcp.Forward.{Heap, load, store, copy_header, copy_headers}

-- one of the names is the name `k`, up to the canonical form
unfoldable pub named : List String → String → Bool
named [] k = false
named (n ∷ ns) k = same_key n k || named ns k

pub get-same_key : (h : Header) (k j : String) → same_key k j ≡ true → get h k ≡ get h j
unfolding get
get-same_key h k j e = ground (arith, eq_iff (canonical k) (canonical j))

-- what a header reads after the copies: the inbound value of a name that is copied and present
abbrev pub overlaid : List String → Header → Header → String → String
overlaid names inbound h k =
    if named names k && not (get inbound k == "") then get inbound k else get h k

load-store_self : (heap : Heap) (q : ℕ) (h : Header) → q < length heap → load (store heap q h) q ≡ h
load-store_self heap q h lt = Heaps.get_or-set_self heap q h [] lt

-- every other pointer reads as before, and nothing is freed
pub record Keeps (q : ℕ) (before after : Heap) : Type 0 where
  pub size : length after ≡ length before
  pub others : (p : ℕ) → p ≢ q → load after p ≡ load before p

copy_header-Keeps :
    (name : String) (inbound : Header) (q : ℕ) (heap : Heap)
    → Keeps q heap (copy_header name inbound q heap)
unfolding copy_header
copy_header-Keeps name inbound q heap = elim (Bool-cases (get inbound name == "")) [
  | inl empty ↦ rw empty (record { size = refl; others = λ p ne. refl })
  | inr full ↦ rw full (record {
    size = Heaps.length-set heap q _;
    others = λ p ne. Heaps.get_or-set_ne heap q p _ [] (λ e. ne (sym e));
  })
]

copy_header-get :
    (name : String) (inbound : Header) (q : ℕ) (heap : Heap) (k : String)
    → q < length heap
    → get (load (copy_header name inbound q heap) q) k
      ≡ overlaid (name ∷ []) inbound (load heap q) k
unfolding copy_header named
copy_header-get name inbound q heap k lt = ground (
  arith,
  load-store_self heap q (set (load heap q) name (get inbound name)) lt,
  get-set (load heap q) name k (get inbound name),
  get-same_key inbound name k,
)

pub copy_headers-Keeps :
    (names : List String) (inbound : Header) (q : ℕ) (heap : Heap)
    → Keeps q heap (copy_headers names inbound q heap)
unfolding copy_headers
copy_headers-Keeps [] inbound q heap = record { size = refl; others = λ p ne. refl }
copy_headers-Keeps (name ∷ names) inbound q heap =
    let a = copy_header-Keeps name inbound q heap in
    let b = copy_headers-Keeps names inbound q (copy_header name inbound q heap) in
    record { size = b.size ∙ a.size; others = λ p ne. b.others p ne ∙ a.others p ne }

pub copy_headers-get :
    (names : List String) (inbound : Header) (q : ℕ) (heap : Heap) (k : String)
    → q < length heap
    → get (load (copy_headers names inbound q heap) q) k ≡ overlaid names inbound (load heap q) k
unfolding copy_headers named
copy_headers-get [] inbound q heap k lt = refl
copy_headers-get (name ∷ names) inbound q heap k lt =
    let kept = copy_header-Keeps name inbound q heap in
    let lt' : q < length (copy_header name inbound q heap) = omega (arith, kept.size) in
    ground (
      arith,
      copy_headers-get names inbound q (copy_header name inbound q heap) k lt',
      copy_header-get name inbound q heap k lt,
    )
