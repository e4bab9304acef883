-- ===== src/Forward/Adding.antt =====
-- `addHeaders` (grpcmcp/server.go): the values of each name afterwards.
use grpcmcp.Base.{
  String, ◌≡◌, ◌≢◌, ap, refl, sym, ◌∙◌, inl, inr, true, false, Option, none, some, List, [], ◌∷◌,
  ◌++◌, arith, eq_iff, eq_refl, if◌then◌else◌, Bool-cases, All, NoDup, contains, lookup,
}
use mathlib.Core.List.{append_assoc, append-nil}
use grpcmcp.Header.{Header, first, all_values, get, canonical, add, del}
use grpcmcp.Header.Laws.{same_key, values, values-set, values-add, values-del}
use grpcmcp.Forward.{add_each, copy_values, add_headers}

same_key_refl : (k : String) → same_key k k ≡ true
same_key_refl k = eq_refl (canonical k)

values-same_key : (h : Header) (k j : String) → same_key k j ≡ true → values h k ≡ values h j
unfolding values
values-same_key h k j e = ground (arith, eq_iff (canonical k) (canonical j))

values-add_each :
    (k j : String) (vs : List String) (dst : Header)
    → values (add_each k vs dst) j ≡ (if same_key k j then values dst k ++ vs else values dst j)
unfolding add_each
values-add_each k j [] dst = elim (Bool-cases (same_key k j)) [
  | inl same ↦ rw same (sym (values-same_key dst k j same) ∙ sym (append-nil (values dst k)))
  | inr other ↦ rw other refl
]
values-add_each k j (v ∷ vs) dst = ground (
  arith,
  values-add_each k j vs (add dst k v),
  values-add dst k j v,
  values-add dst k k v,
  same_key_refl k,
  append_assoc (values dst k) (v ∷ []) vs,
)

values-copy_values :
    (dst : Header) (k j : String) (vs : List String)
    → values (copy_values dst k vs) j ≡ (if same_key k j then vs else values dst j)
unfolding copy_values
values-copy_values dst k j [] = values-del dst k j
values-copy_values dst k j (v ∷ []) = values-set dst k j v
values-copy_values dst k j (v ∷ w ∷ vs) = ground (
  arith,
  values-add_each k j (v ∷ w ∷ vs) (del dst k),
  values-del dst k j,
  values-del dst k k,
  same_key_refl k,
)

abbrev pub keys : Header → List String
keys [] = []
keys ((k, vs) ∷ h) = k ∷ keys h

-- a map whose keys are canonical, each there once, as every header of net/http is
pub record IsHeader (h : Header) : Type 0 where
  pub canonical_keys : All (λ k. canonical k ≡ k) (keys h)
  pub distinct : NoDup (keys h)

-- what the source says of a key overrides the destination
abbrev pub overridden : Option (List String) → List String → List String
overridden none old = old
overridden (some vs) old = vs

lookup_of_absent : (h : Header) (k : String) → contains (keys h) k ≡ false → lookup k h ≡ none
unfolding lookup contains
lookup_of_absent [] k e = refl
lookup_of_absent ((j, v) ∷ h) k e = ground (arith, lookup_of_absent h k, eq_iff j k)

-- After `addHeaders` every key of the source has exactly the source's values, in order and
-- whatever their number, and every other key has the values that it had.
pub values-add_headers :
    (dst src : Header) (k : String)
    → IsHeader src
    → values (add_headers dst src) k ≡ overridden (lookup (canonical k) src) (values dst k)
unfolding add_headers lookup
values-add_headers dst [] k h = refl
values-add_headers dst ((j, vs) ∷ src) k h =
    let rest : IsHeader src = record {
      canonical_keys = h.canonical_keys.1;
      distinct = h.distinct.1;
    } in
    ground (
      arith,
      h.canonical_keys.0,
      values-add_headers (copy_values dst j vs) src k rest,
      values-copy_values dst j k vs,
      lookup_of_absent src j h.distinct.0,
      eq_iff j (canonical k),
    )

get-values : (h : Header) (k : String) → get h k ≡ first (some (values h k))
unfolding get values
get-values h k = go (lookup (canonical k) h)
  where
    go : (o : Option (List String)) → first o ≡ first (some (all_values o))
    go none = refl
    go (some vs) = refl

-- A name that the source has a value for is read as there.
pub get-add_headers :
    (dst src : Header) (k : String)
    → IsHeader src
    → get src k ≢ ""
    → get (add_headers dst src) k ≡ get src k
unfolding get values
get-add_headers dst src k h some_value =
    get-values (add_headers dst src) k
    ∙ ap (λ vs. first (some vs)) (values-add_headers dst src k h)
    ∙ go (lookup (canonical k) src) some_value
  where
    go :
        (o : Option (List String))
        → first o ≢ ""
        → first (some (overridden o (values dst k))) ≡ first o
    go none absent = absurd (absent refl)
    go (some vs) there = refl
