-- ===== src/Header/Laws.antt =====
-- Reading a header after each operation.
use grpcmcp.Base.{
  String, ◌≡◌, refl, ◌∙◌, Bool, none, List, [], ◌∷◌, ◌++◌, arith, ◌==◌, eq_iff, eq_refl, lookup,
  lookup-insert, if◌then◌else◌,
}
use grpcmcp.Header.{Header, canonical, get, set, add, del, remove, all_values}

-- `k` and `j` name the same header
abbrev pub same_key : String → String → Bool
same_key k j = canonical k == canonical j

pub get-set :
    (h : Header) (k j v : String) → get (set h k v) j ≡ (if same_key k j then v else get h j)
unfolding get set
get-set h k j v = ground (arith, lookup-insert (canonical k) (canonical j) (v ∷ []) h)

pub get-set_same : (h : Header) (k v : String) → get (set h k v) k ≡ v
get-set_same h k v = get-set h k k v ∙ rw (eq_refl (canonical k)) refl

pub lookup-remove :
    (k j : String) (h : Header) → lookup j (remove k h) ≡ (if k == j then none else lookup j h)
unfolding lookup remove
lookup-remove k j [] = ground arith
lookup-remove k j ((i, v) ∷ h) =
    ground (arith, lookup-remove k j h, eq_iff i k, eq_iff i j, eq_iff k j)

-- the values under a key
unfoldable pub values : Header → String → List String
values h k = all_values (lookup (canonical k) h)

pub values-set :
    (h : Header) (k j v : String)
    → values (set h k v) j ≡ (if same_key k j then v ∷ [] else values h j)
unfolding values set
values-set h k j v = ground (arith, lookup-insert (canonical k) (canonical j) (v ∷ []) h)

pub values-add :
    (h : Header) (k j v : String)
    → values (add h k v) j ≡ (if same_key k j then values h k ++ v ∷ [] else values h j)
unfolding values add
values-add h k j v = ground (
  arith,
  lookup-insert (canonical k) (canonical j) (all_values (lookup (canonical k) h) ++ v ∷ []) h,
  eq_iff (canonical k) (canonical j),
)

pub values-del :
    (h : Header) (k j : String) → values (del h k) j ≡ (if same_key k j then [] else values h j)
unfolding values del
values-del h k j = ground (arith, lookup-remove (canonical k) (canonical j) h)
