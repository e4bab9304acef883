-- ===== src/Reflection/Loading.antt =====
-- The whole load: which files it returns, in which order, and when it fails.
use grpcmcp.Base.{
  ℕ, ◌<◌, String, ◌≡◌, inl, inr, some, List, [], ◌∷◌, arith, length, All, contains, Has, Has-cons,
  lookup, insert, lookup-insert, eq_iff, ◌==◌, Bool-cases,
}
use grpcmcp.Base.Results.{Result, ok, bind-eq-ok}
use grpcmcp.Descriptor.{FileProto}
use grpcmcp.Reflection.{
  Files, Progress, Outcome, done, failed, out_of_fuel, top_sort, sort_all, collect, gather,
}
use grpcmcp.Reflection.Step.{
  names, IsKeyed, Holds, Step, Step-refl, Step-trans, IsSound, unseen, unseen-le-length,
}
use grpcmcp.Reflection.Contract.{Ends, Ends-bind, Ends-map, IsRank, DepsFirst, Sorted}
use grpcmcp.Reflection.Sorting.{top_sort-Ends}

-- Storing a file under its name keeps the map keyed by names.
insert-IsKeyed : (d : FileProto) (all : Files) → IsKeyed all → IsKeyed (insert d.name d all)
insert-IsKeyed d all h k v e = elim (Bool-cases (d.name == k)) [
  | inl same ↦ ground (arith, lookup-insert d.name k d all, eq_iff d.name k)
  | inr other ↦ h k v (ground (arith, lookup-insert d.name k d all))
]

collect-IsKeyed : (files : List FileProto) (all : Files) → IsKeyed all → IsKeyed (collect files all)
unfolding collect
collect-IsKeyed [] all h = h
collect-IsKeyed (d ∷ rest) all h =
    collect-IsKeyed rest (insert d.name d all) (insert-IsKeyed d all h)

pub gather-IsKeyed :
    (reply : String → Result String (List FileProto)) (services : List String) (before all : Files)
    → IsKeyed before
    → gather reply services before ≡ ok all
    → IsKeyed all
unfolding gather
gather-IsKeyed reply [] before all h e = λ k v held. h k v (ground arith)
gather-IsKeyed reply (name ∷ more) before all h e =
    let (files, _, rest) = bind-eq-ok (reply name) _ e in
    gather-IsKeyed reply more (collect files before) all (collect-IsKeyed files before h) rest

-- `range all` yields each value of the map, in some order.
pub record IsListing (all : Files) (ds : List FileProto) : Type 0 where
  pub held : All (Holds all) ds
  pub complete : (k : String) (v : FileProto) → lookup k all ≡ some v → Has (names ds) k

-- all that was seen has been emitted
abbrev pub IsClear : Progress → Type 0
IsClear s = (x : String) → Has s.seen x → Has (names s.ds) x

pub record Listed (all : Files) (given : List FileProto) (s t : Progress) : Type 0 where
  pub step : Step s t
  pub sound : IsSound all s → IsSound all t
  pub reached : (x : String) → Has (names given) x → Has t.seen x
  pub ordered :
      (rank : String → ℕ) → IsRank rank all → IsClear s → DepsFirst [] s.ds → DepsFirst [] t.ds

Listed-nil : (all : Files) (s : Progress) → Listed all [] s s
unfolding contains
Listed-nil all s = record {
  step = Step-refl s;
  sound = λ h. h;
  reached = λ x h. cc;
  ordered = λ _ _ _ h. h;
}

Step-IsClear : {s t : Progress} → Step s t → IsClear s → IsClear t
Step-IsClear st h x k = elim (st.settled x k) [ inl old ↦ st.ds_grows x (h x old) | inr out ↦ out ]

module _ (all : Files) (keyed : IsKeyed all) where
  abbrev Sorts : FileProto → Progress → Progress → Type 0
  Sorts d s t = (rank : String → ℕ) → Sorted rank all d s t

  Listed-cons :
      (d : FileProto) (rest : List FileProto) {s t u : Progress}
      → Sorts d s t
      → Listed all rest t u
      → Listed all (d ∷ rest) s u
  Listed-cons d rest a b = record {
    step = Step-trans (a (λ _. 0)).step b.step;
    sound = λ h. b.sound ((a (λ _. 0)).sound h);
    reached = λ x h. elim (Has-cons (names rest) d.name x h) [
      | inl same ↦ b.step.seen_grows x (rw same at (a (λ _. 0)).reached)
      | inr later ↦ b.reached x later
    ];
    ordered = λ rank r clear first.
        b.ordered rank r (Step-IsClear (a (λ _. 0)).step clear)
          ((a rank).ordered r (λ x k _. clear x k) first);
  }

  -- The contract of one call holds for every rank, since the call does not depend on the rank.
  top_sort-Sorts :
      (fuel : ℕ) (d : FileProto) (s : Progress)
      → Holds all d
      → unseen all s.seen < fuel
      → Ends all (Sorts d s) (top_sort fuel all d s)
  top_sort-Sorts fuel d s held fits =
      go (top_sort fuel all d s) (λ rank. top_sort-Ends rank all keyed fuel d s held fits)
    where
      go :
          (o : Outcome)
          → ((rank : String → ℕ) → Ends all (Sorted rank all d s) o)
          → Ends all (Sorts d s) o
      go (done t) h = h
      go (failed e) h = h (λ _. 0)
      go out_of_fuel h = h (λ _. 0)

  pub sort_all-Ends :
      (fuel : ℕ)
      → length all < fuel
      → (given : List FileProto) → All (Holds all) given
      → (s : Progress) → Ends all (Listed all given s) (sort_all fuel all given s)
  unfolding sort_all
  sort_all-Ends fuel fits [] held s = Listed-nil all s
  sort_all-Ends fuel fits (d ∷ rest) held s =
      Ends-bind all (Sorts d s) (Listed all (d ∷ rest) s) (top_sort fuel all d s)
        (sort_all fuel all rest)
        (top_sort-Sorts fuel d s held.0 (omega (arith, unseen-le-length all s.seen)))
        (λ t a.
          Ends-map all (Listed all rest t) (Listed all (d ∷ rest) s) (sort_all fuel all rest t)
            (λ u b. Listed-cons d rest a b) (sort_all-Ends fuel fits rest held.1 t))
