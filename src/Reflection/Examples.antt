-- ===== src/Reflection/Examples.antt =====
-- The loader on two files, of which the second depends on the first.
use mathlib.Core.Path.{subst}
use grpcmcp.Base.{
  ℕ, String, ◌≡◌, ◌≢◌, ◌⊎◌, inl, inr, refl, sym, ◌∙◌, ap, ◌<◌, none, List, [], ◌∷◌, arith, contains,
  Has, lookup, insert, map, eq_iff, Bool-cases, ◌==◌, if◌then◌else◌,
}
use grpcmcp.Base.Results.{Result, ok}
use grpcmcp.Descriptor.{FileProto}
use grpcmcp.Naming.Examples.{users}
use grpcmcp.Reflection.{
  Files, Progress, done, load_descriptors, gather, collect, sort_all, top_sort, visit,
}
use grpcmcp.Reflection.Contract.{IsRank, DepsFirst}
use grpcmcp.Reflection.Loading.{IsListing}
use grpcmcp.Reflection.Step.{Holds}
use grpcmcp.Reflection.Replies.{IsReplySet, IsRange, Explained, load-IsReplySet, load-Explained}
use grpcmcp.Reflection.Results.{IsClosed, load-DepsFirst}

abbrev pub file_a : FileProto
file_a = record { name = "a.proto"; dependency = []; services = [] }

abbrev pub file_b : FileProto
file_b = record { name = "b.proto"; dependency = "a.proto" ∷ []; services = users ∷ [] }

abbrev pub list_services : Result String (List String)
list_services = ok ("pkg.B" ∷ [])

abbrev pub file_containing_symbol : String → Result String (List FileProto)
file_containing_symbol name = ok (file_b ∷ file_a ∷ [])

abbrev pub close : Result String (Unit {0})
close = ok tt

abbrev pub iterate : Files → List FileProto
iterate all = map (λ p. p.1) all

abbrev pub files : Files
files = ("b.proto", file_b) ∷ ("a.proto", file_a) ∷ []

abbrev sorted : Progress
sorted = record { seen = "a.proto" ∷ "b.proto" ∷ []; ds = file_a ∷ file_b ∷ [] }

pub files_gathered : gather file_containing_symbol ("pkg.B" ∷ []) [] ≡ ok files
unfolding gather collect insert
files_gathered = refl

pub files-IsListing : IsListing files (iterate files)
unfolding lookup contains
files-IsListing = record {
  held = (refl, (refl, tt));
  complete = λ k v h. ground (arith, eq_iff "b.proto" k, eq_iff "a.proto" k);
}

held_cases : (d : FileProto) → Holds files d → (d ≡ file_b) ⊎ (d ≡ file_a)
unfolding lookup
held_cases d h = elim (Bool-cases ("b.proto" == d.name)) [
  | inl b ↦ inl (cc (rw b at h))
  | inr other ↦ elim (Bool-cases ("a.proto" == d.name)) [
    | inl a ↦ inr (cc (rw (other, a) at h))
    | inr neither ↦ cc (rw (other, neither) at h)
  ]
]

abbrev pub rank : String → ℕ
rank s = if s == "b.proto" then 1 else 0

pub files_ranked : IsRank rank files
unfolding contains
files_ranked d held x h = elim (held_cases d held) [
  | inl b ↦ go (subst (λ e. Has e.dependency x) b h) (ap (λ e. e.name) b)
  | inr a ↦ cc (subst (λ e. Has e.dependency x) a h)
]
  where
    go : Has ("a.proto" ∷ []) x → d.name ≡ "b.proto" → rank x < rank d.name
    go k named = ground (
      arith,
      named,
      eq_iff "a.proto" x,
      eq_iff x "b.proto",
      eq_iff d.name "b.proto",
      eq_iff "a.proto" "b.proto",
    )

pub files-IsClosed : IsClosed files
unfolding contains lookup
files-IsClosed d held x h = elim (held_cases d held) [
  | inl b ↦ go (subst (λ e. Has e.dependency x) b h)
  | inr a ↦ cc (subst (λ e. Has e.dependency x) a h)
]
  where
    go : Has ("a.proto" ∷ []) x → lookup x files ≢ none
    go k = ground (arith, eq_iff "a.proto" x, eq_iff "b.proto" x)

files_load : load_descriptors list_services file_containing_symbol close iterate ≡ done sorted
unfolding load_descriptors gather collect insert sort_all top_sort visit contains lookup
files_load = refl

load-DepsFirst_example : DepsFirst [] (file_a ∷ file_b ∷ [])
load-DepsFirst_example =
    load-DepsFirst list_services file_containing_symbol close iterate refl files_gathered
      files-IsListing rank files_ranked files_load

files-IsRange : IsRange list_services file_containing_symbol close iterate
files-IsRange services all listed gathered =
    let same : "pkg.B" ∷ [] ≡ services = cc in
    let found : ok files ≡ ok all =
      sym files_gathered ∙ ap (λ l. gather file_containing_symbol l []) same ∙ gathered in
    let equal : files ≡ all = cc in subst (λ m. IsListing m (iterate m)) equal files-IsListing

load-IsReplySet_example : IsReplySet file_containing_symbol ("pkg.B" ∷ []) (file_a ∷ file_b ∷ [])
load-IsReplySet_example =
    load-IsReplySet list_services file_containing_symbol close iterate ("pkg.B" ∷ []) sorted
      files-IsRange refl files_load

load-Explained_example :
    Explained list_services file_containing_symbol close iterate
      (load_descriptors list_services file_containing_symbol close iterate)
load-Explained_example =
    load-Explained list_services file_containing_symbol close iterate files-IsRange
