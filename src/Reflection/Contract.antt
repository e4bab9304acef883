-- ===== src/Reflection/Contract.antt =====
-- The contract of `topSort` and of its loop: how a call may end, and when a list of files stands
-- in dependency order.
use grpcmcp.Base.{
  ℕ, suc, ◌<◌, String, ◌≡◌, ◌⊎◌, inl, inr, none, List, [], ◌∷◌, ◌++◌, arith, contains, Has,
  Has-cons, Has-head, Has-tail, lookup,
}
use grpcmcp.Descriptor.{FileProto}
use grpcmcp.Reflection.{
  Files, LoadError, missing, stream, Progress, Outcome, done, failed, out_of_fuel, ◌>>=◌,
}
use grpcmcp.Reflection.Step.{names, Holds, Step, IsSound}

-- the error of a file whose dependency the map does not hold
abbrev pub IsMissing : Files → LoadError → Type 0
IsMissing all (missing file dep) =
    (d : FileProto) × Holds all d × (d.name ≡ file) × Has d.dependency dep × (lookup dep all ≡ none)
IsMissing all (stream e) = ⊥

-- The call ended: with a progress of which `P` holds, or by naming a missing file.
abbrev pub Ends : Files → (Progress → Type 0) → Outcome → Type 0
Ends all P (done t) = P t
Ends all P (failed e) = IsMissing all e
Ends all P out_of_fuel = ⊥

pub Ends-bind :
    (all : Files) (P Q : Progress → Type 0) (o : Outcome) (f : Progress → Outcome)
    → Ends all P o
    → ((t : Progress) → P t → Ends all Q (f t))
    → Ends all Q (o >>= f)
Ends-bind all P Q (done t) f h k = k t h
Ends-bind all P Q (failed e) f h k = h
Ends-bind all P Q out_of_fuel f h k = h

pub Ends-map :
    (all : Files) (P Q : Progress → Type 0) (o : Outcome)
    → ((t : Progress) → P t → Q t)
    → Ends all P o
    → Ends all Q o
Ends-map all P Q (done t) k h = k t h
Ends-map all P Q (failed e) k h = h
Ends-map all P Q out_of_fuel k h = h

-- A rank that falls along dependencies, as there is one where no file depends on itself.
abbrev pub IsRank : (String → ℕ) → Files → Type 0
IsRank rank all =
    (d : FileProto) → Holds all d → (x : String) → Has d.dependency x → rank x < rank d.name

-- each file stands behind what it depends on
abbrev pub DepsFirst : List String → List FileProto → Type 0
DepsFirst before [] = Unit
DepsFirst before (d ∷ ds) =
    ((x : String) → Has d.dependency x → Has before x) × DepsFirst (d.name ∷ before) ds

pub DepsFirst-concat :
    (before : List String) (ds : List FileProto) (d : FileProto)
    → DepsFirst before ds
    → ((x : String) → Has d.dependency x → Has before x ⊎ Has (names ds) x)
    → DepsFirst before (ds ++ d ∷ [])
unfolding contains
DepsFirst-concat before [] d h k = (λ x dep. ground (arith, k x dep), tt)
DepsFirst-concat before (e ∷ ds) d h k =
    (h.0, DepsFirst-concat (e.name ∷ before) ds d h.1 (λ x dep. go x (k x dep)))
  where
    of_cons :
        (x : String) → (e.name ≡ x) ⊎ Has (names ds) x → Has (e.name ∷ before) x ⊎ Has (names ds) x
    of_cons x (inl same) = inl (rw (← same) (Has-head before e.name))
    of_cons x (inr later) = inr later

    go :
        (x : String)
        → Has before x ⊎ Has (e.name ∷ names ds) x
        → Has (e.name ∷ before) x ⊎ Has (names ds) x
    go x (inl old) = inl (Has-tail before e.name x old)
    go x (inr new) = of_cons x (Has-cons (names ds) e.name x new)

module _ (rank : String → ℕ) where
  -- what was seen below the rank has been emitted
  abbrev pub IsSettled : ℕ → Progress → Type 0
  IsSettled b s = (x : String) → Has s.seen x → rank x < b → Has (names s.ds) x

  pub Step-IsSettled : {s t : Progress} (b : ℕ) → Step s t → IsSettled b s → IsSettled b t
  Step-IsSettled b st h x k lt = elim (st.settled x k) [
    | inl old ↦ st.ds_grows x (h x old lt)
    | inr out ↦ out
  ]

  -- what a call of `topSort` for the file establishes
  pub record Sorted (all : Files) (d : FileProto) (s t : Progress) : Type 0 where
    pub step : Step s t
    pub sound : IsSound all s → IsSound all t
    pub reached : Has t.seen d.name
    pub ordered :
        IsRank rank all → IsSettled (suc (rank d.name)) s → DepsFirst [] s.ds → DepsFirst [] t.ds

  -- what the loop over some of its dependencies establishes
  pub record Visited (all : Files) (d : FileProto) (deps : List String) (s t : Progress)
      : Type 0 where
    pub step : Step s t
    pub sound : IsSound all s → IsSound all t
    pub reached : (x : String) → Has deps x → Has t.seen x
    pub ordered :
        IsRank rank all → IsSettled (rank d.name) s → DepsFirst [] s.ds → DepsFirst [] t.ds
