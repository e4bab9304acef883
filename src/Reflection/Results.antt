-- ===== src/Reflection/Results.antt =====
-- `LoadDescriptorsFromReflection` as its caller sees it.
use mathlib.Core.Path.{subst}
use grpcmcp.Base.{
  ℕ, String, ◌≡◌, ◌≢◌, ◌↔◌, refl, none, List, [], ◌∷◌, arith, All, contains, Has, NoDup, lookup,
  Has-cons, ap, Option-cases, inl, inr, length, suc,
}
use grpcmcp.Base.Results.{Result, ok, err, Result-cases}
use grpcmcp.Descriptor.{FileProto}
use grpcmcp.Reflection.{
  Files, LoadError, missing, stream, Progress, Outcome, done, failed, out_of_fuel, sort_all,
  attempt, gather, start, load_descriptors,
}
use grpcmcp.Reflection.Step.{names, IsKeyed, Holds, IsSound}
use grpcmcp.Reflection.Contract.{Ends, IsMissing, IsRank, DepsFirst}
use grpcmcp.Reflection.Loading.{IsListing, Listed, gather-IsKeyed, sort_all-Ends}

-- The list has exactly the files of the map, each once.
pub record IsDescriptorSet (all : Files) (ds : List FileProto) : Type 0 where
  pub names_iff : (k : String) → Has (names ds) k ↔ (lookup k all ≢ none)
  pub no_dup : NoDup (names ds)
  pub held : All (Holds all) ds

-- every dependency of a file of the map is in the map
abbrev pub IsClosed : Files → Type 0
IsClosed all =
    (d : FileProto) → Holds all d → (x : String) → Has d.dependency x → lookup x all ≢ none

IsSound-start : (all : Files) → IsSound all start
unfolding contains
IsSound-start all = record { emitted_seen = λ x h. cc; no_dup = tt; from_all = tt }

lookup_of_Holds :
    (all : Files) (ds : List FileProto) (k : String)
    → All (Holds all) ds
    → Has (names ds) k
    → lookup k all ≢ none
unfolding contains
lookup_of_Holds all [] k h m = cc
lookup_of_Holds all (d ∷ ds) k h m = elim (Has-cons (names ds) d.name k m) [
  | inl same ↦ λ gone. ground (arith, h.0, ap (λ j. lookup j all) same)
  | inr later ↦ lookup_of_Holds all ds k h.1 later
]

pub Listed-IsDescriptorSet :
    (all : Files) (given : List FileProto) (t : Progress)
    → IsListing all given
    → Listed all given start t
    → IsDescriptorSet all t.ds
unfolding contains
Listed-IsDescriptorSet all given t ranged a =
    let sound = a.sound (IsSound-start all) in
    record {
      names_iff = λ k. (
        lookup_of_Holds all t.ds k sound.from_all,
        λ present. elim (Option-cases (lookup k all)) [
          | inl gone ↦ absurd (present gone)
          | inr (v, found) ↦ elim (a.step.settled k (a.reached k (ranged.complete k v found))) [
            | inl never ↦ cc
            | inr out ↦ out
          ]
        ],
      );
      no_dup = sound.no_dup;
      held = sound.from_all;
    }

no-IsMissing : (all : Files) → IsClosed all → (e : LoadError) → ¬ IsMissing all e
no-IsMissing all closed (missing file dep) (d, held, _, needs, gone) = closed d held dep needs gone
no-IsMissing all closed (stream e) h = h

module _ (list_services : Result String (List String))
    (file_containing_symbol : String → Result String (List FileProto))
    (close : Result String (Unit {0})) (iterate : Files → List FileProto) {services : List String}
    {all : Files} (listed : list_services ≡ ok services)
    (gathered : gather file_containing_symbol services [] ≡ ok all)
    (ranged : IsListing all (iterate all)) where
  abbrev load : Outcome
  load = load_descriptors list_services file_containing_symbol close iterate

  keyed : IsKeyed all
  unfolding lookup
  keyed = gather-IsKeyed file_containing_symbol services [] all (λ k v h. cc) gathered

  load-eq-sort : close ≡ ok tt → load ≡ sort_all (suc (length all)) all (iterate all) start
  unfolding load_descriptors
  load-eq-sort closed = rw (listed, attempt) (rw (gathered, attempt) (rw (closed, attempt)))

  pub load-Ends : close ≡ ok tt → Ends all (Listed all (iterate all) start) load
  load-Ends closed =
      rw (load-eq-sort closed)
        (sort_all-Ends all keyed (suc (length all)) (omega arith) (iterate all) ranged.held start)

  load-eq-failed : {e : String} → close ≡ err e → load ≡ failed (stream e)
  unfolding load_descriptors
  load-eq-failed broken = rw (listed, attempt) (rw (gathered, attempt) (rw (broken, attempt)))

  close_of_done : {t : Progress} → load ≡ done t → close ≡ ok tt
  close_of_done {t} h = elim (Result-cases close) [
    | inl (_, closed) ↦ closed
    | inr (e, broken) ↦ cc (load-eq-failed broken)
  ]

  done-Listed : {t : Progress} → load ≡ done t → Listed all (iterate all) start t
  done-Listed h = subst (Ends all (Listed all (iterate all) start)) h (load-Ends (close_of_done h))

  -- A load that succeeds returns exactly the files of the map, each once.
  pub load-IsDescriptorSet : {t : Progress} → load ≡ done t → IsDescriptorSet all t.ds
  load-IsDescriptorSet {t} h = Listed-IsDescriptorSet all (iterate all) t ranged (done-Listed h)

  -- If no file depends on itself, directly or through others, so that some rank falls along every
  -- dependency, a load that succeeds returns each file behind all that it depends on.
  pub load-DepsFirst :
      (rank : String → ℕ) → IsRank rank all → {t : Progress} → load ≡ done t → DepsFirst [] t.ds
  unfolding contains
  load-DepsFirst rank r h = (done-Listed h).ordered rank r (λ x k. cc) tt

  -- If the stream closes without an error and every dependency is among the files, the load succeeds.
  pub load_total : close ≡ ok tt → IsClosed all → (t : Progress) × (load ≡ done t)
  load_total closed whole = go load refl (load-Ends closed)
    where
      go :
          (o : Outcome)
          → load ≡ o
          → Ends all (Listed all (iterate all) start) o
          → (t : Progress) × (load ≡ done t)
      go (done t) e h = (t, e)
      go (failed x) e h = absurd (no-IsMissing all whole x h)
      go out_of_fuel e h = absurd h
