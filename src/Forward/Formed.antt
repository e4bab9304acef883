-- ===== src/Forward/Formed.antt =====
-- Header maps are well formed, with canonical and distinct keys, through every operation on them.
use mathlib.Core.Path.{subst}
use grpcmcp.Base.{
  length, ℕ, zero, suc, String, ◌≡◌, refl, Bool, true, false, ◌||◌, List, [], ◌∷◌, ◌++◌, arith,
  eq_iff, All, All-append, contains, insert, if◌then◌else◌, ◌==◌, Bool-cases, Option-cases, inl,
  inr,
}
use grpcmcp.Base.Heaps
use grpcmcp.Base.Results.{Result, ok, err}
use grpcmcp.Header.{Header, get, set, add, canonical, canonical_idem}
use grpcmcp.Forward.{
  Heap, load, operator_identity_header, static_headers, copy_header, copy_headers, after,
  operator_identity_headers, forward_headers, headers_provider, set_header_flag, cut_colon,
  trim_left,
}
use grpcmcp.Forward.Adding.{keys, IsHeader}

contains-keys :
    (k j : String) (vs : List String) (h : Header)
    → contains (keys (insert k vs h)) j ≡ (k == j || contains (keys h) j)
unfolding contains insert
contains-keys k j vs [] = ground arith
contains-keys k j vs ((i, old) ∷ h) = ground (arith, contains-keys k j vs h, eq_iff i k)

insert-IsHeader :
    (k : String) (vs : List String) (h : Header)
    → canonical k ≡ k
    → IsHeader h
    → IsHeader (insert k vs h)
unfolding contains insert
insert-IsHeader k vs [] e f = record { canonical_keys = (e, tt); distinct = (refl, tt) }
insert-IsHeader k vs ((i, old) ∷ h) e f =
    let rest =
      insert-IsHeader k vs h e
        (record { canonical_keys = f.canonical_keys.1; distinct = f.distinct.1 }) in
    elim (Bool-cases (i == k)) [
      | inl same ↦ rw same (record {
        canonical_keys = (e, f.canonical_keys.1);
        distinct = (ground (arith, f.distinct.0, eq_iff i k), f.distinct.1);
      })
      | inr other ↦ rw other (record {
        canonical_keys = (f.canonical_keys.0, rest.canonical_keys);
        distinct = (
          ground (arith, contains-keys k i vs h, f.distinct.0, other, eq_iff i k, eq_iff k i),
          rest.distinct,
        );
      })
    ]

set-IsHeader : (h : Header) (k v : String) → IsHeader h → IsHeader (set h k v)
unfolding set
set-IsHeader h k v f = insert-IsHeader (canonical k) (v ∷ []) h (canonical_idem k) f

add-IsHeader : (h : Header) (k v : String) → IsHeader h → IsHeader (add h k v)
unfolding add
add-IsHeader h k v f = insert-IsHeader (canonical k) _ h (canonical_idem k) f

-- the flags of a command line, one after the other
pub set_header_flag-IsHeader :
    (h h' : Header) (value : String) → IsHeader h → set_header_flag h value ≡ ok h' → IsHeader h'
unfolding set_header_flag
set_header_flag-IsHeader h h' value f e = elim (Option-cases (cut_colon value)) [
  | inl absent ↦ absurd (ground (arith, e, absent))
  | inr ((k, v), found) ↦
      let same : add h k (trim_left v) ≡ h' = ground (arith, e, found) in
      subst IsHeader same (add-IsHeader h k (trim_left v) f)
]

-- every map of the heap is well formed
abbrev pub AllFormed : Heap → Type 0
AllFormed heap = All IsHeader heap

pub AllFormed-load : (heap : Heap) (p : ℕ) → AllFormed heap → IsHeader (load heap p)
AllFormed-load [] p h = record { canonical_keys = tt; distinct = tt }
AllFormed-load (x ∷ heap) zero h = h.0
AllFormed-load (x ∷ heap) (suc p) h = AllFormed-load heap p h.1

AllFormed-store :
    (heap : Heap) (p : ℕ) (x : Header)
    → IsHeader x
    → AllFormed heap
    → AllFormed (Heaps.set heap p x)
AllFormed-store [] p x f h = tt
AllFormed-store (y ∷ heap) zero x f h = (f, h.1)
AllFormed-store (y ∷ heap) (suc p) x f h = (h.0, AllFormed-store heap p x f h.1)

copy_header-AllFormed :
    (name : String) (inbound : Header) (q : ℕ) (heap : Heap)
    → AllFormed heap
    → AllFormed (copy_header name inbound q heap)
unfolding copy_header
copy_header-AllFormed name inbound q heap h = elim (Bool-cases (get inbound name == "")) [
  | inl absent ↦ rw absent h
  | inr there ↦ rw there (
      AllFormed-store heap q (set (load heap q) name (get inbound name))
        (set-IsHeader (load heap q) name (get inbound name) (AllFormed-load heap q h)) h)
]

copy_headers-AllFormed :
    (names : List String) (inbound : Header) (q : ℕ) (heap : Heap)
    → AllFormed heap
    → AllFormed (copy_headers names inbound q heap)
unfolding copy_headers
copy_headers-AllFormed [] inbound q heap h = h
copy_headers-AllFormed (name ∷ names) inbound q heap h =
    copy_headers-AllFormed names inbound q (copy_header name inbound q heap)
      (copy_header-AllFormed name inbound q heap h)

after-AllFormed :
    (names : List String) (inbound : Header) (reply : Heap × Result String ℕ)
    → AllFormed reply.0
    → AllFormed (after (λ q heap. copy_headers names inbound q heap) reply).0
after-AllFormed names inbound (heap, ok q) h = copy_headers-AllFormed names inbound q heap h
after-AllFormed names inbound (heap, err e) h = h

-- A call of the provider leaves a heap of well-formed maps such a heap.
pub headers_provider-AllFormed :
    (p : ℕ) (op : Bool) (names : List String) (inbound : Header) (heap : Heap)
    → AllFormed heap
    → AllFormed (headers_provider p op names inbound heap).0
unfolding headers_provider forward_headers operator_identity_headers static_headers copy_headers
headers_provider-AllFormed p op names inbound heap h = go names op
  where
    cloned : AllFormed (heap ++ load heap p ∷ [])
    cloned = All-append IsHeader heap (load heap p ∷ []) h (AllFormed-load heap p h, tt)

    identified :
        (b : Bool)
        → AllFormed
            ((if b then operator_identity_headers (static_headers p) else static_headers p) inbound
              heap).0
    identified true =
        after-AllFormed (operator_identity_header ∷ []) inbound
          (heap ++ load heap p ∷ [], ok (length heap)) cloned
    identified false = cloned

    go : (ns : List String) (b : Bool) → AllFormed (headers_provider p b ns inbound heap).0
    go [] b = identified b
    go (n ∷ ns) b = after-AllFormed (n ∷ ns) inbound _ (identified b)
