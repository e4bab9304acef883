-- ===== src/Header.antt =====
-- The operations of net/http's Header that the program calls, as the standard library documents
-- them: keys are stored in canonical form, and every operation but a range canonicalises its key.
mod Canonical
pub mod Laws
unfoldable pub use Canonical.{canonical}
pub use Canonical.{canonical_idem}
use grpcmcp.Base.{
  ℕ, String, Bool, Option, none, some, List, [], ◌∷◌, ◌++◌, ◌==◌, lookup, insert, if◌then◌else◌,
}

-- `map[string][]string`; a key stands once
abbrev pub Header : Type 0
Header = List (String × List String)

abbrev pub first : Option (List String) → String
first none = ""
first (some []) = ""
first (some (v ∷ vs)) = v

abbrev pub all_values : Option (List String) → List String
all_values none = []
all_values (some vs) = vs

unfoldable pub remove : String → Header → Header
remove k [] = []
remove k ((j, v) ∷ m) = let rest = remove k m in if j == k then rest else (j, v) ∷ rest

unfoldable pub get : Header → String → String
get h k = first (lookup (canonical k) h)

unfoldable pub set : Header → String → String → Header
set h k v = insert (canonical k) (v ∷ []) h

unfoldable pub add : Header → String → String → Header
add h k v = insert (canonical k) (all_values (lookup (canonical k) h) ++ v ∷ []) h

unfoldable pub del : Header → String → Header
del h k = remove (canonical k) h
