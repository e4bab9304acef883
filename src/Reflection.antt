-- ===== src/Reflection.antt =====
-- grpcmcp/server.go: `topSort` and `LoadDescriptorsFromReflection`. The reflection stream is the
-- grpcreflect library's: its calls are the parameters of `load_descriptors`, one after the other.
pub mod Step
pub mod Contract
pub mod Sorting
pub mod Loading
pub mod Results
pub mod Replies
pub mod Examples
use grpcmcp.Base.{
  ℕ, zero, suc, String, Option, none, some, List, [], ◌∷◌, ◌++◌, length, contains, lookup, insert,
  if◌then◌else◌,
}
use grpcmcp.Base.Results.{Result, ok, err, ◌>>=◌ as ◌then_ok◌}
use grpcmcp.Descriptor.{FileProto}

-- `map[string]*descriptorpb.FileDescriptorProto`
abbrev pub Files : Type 0
Files = List (String × FileProto)

pub data LoadError : Type 0 where
  -- descriptor %q depends on missing descriptor %q
  missing : String → String → LoadError
  -- an error of the reflection stream
  stream : String → LoadError

-- What `topSort` mutates through its pointers.
pub record Progress : Type 0 where
  pub seen : List String
  pub ds : List FileProto

pub data Outcome : Type 0 where
  done : Progress → Outcome
  failed : LoadError → Outcome
  out_of_fuel : Outcome

infixl 5 ◌>>=◌
abbrev pub ◌>>=◌ : Outcome → (Progress → Outcome) → Outcome
done s >>= f = f s
failed e >>= f = failed e
out_of_fuel >>= f = out_of_fuel

abbrev pub mark : FileProto → Progress → Progress
mark d s = record s { seen = d.name ∷ s.seen }

abbrev pub emit : FileProto → Progress → Progress
emit d s = record s { ds = s.ds ++ d ∷ [] }

-- `all[dep]`, with the error of a missing one
abbrev pub descend :
    (FileProto → Progress → Outcome) → FileProto → String → Option FileProto → Progress → Outcome
descend sort d dep none s = failed (missing d.name dep)
descend sort d dep (some v) s = sort v s

-- the loop over `d.GetDependency()`
pub visit : (FileProto → Progress → Outcome) → Files → FileProto → List String → Progress → Outcome
visit sort all d [] s = done s
visit sort all d (dep ∷ deps) s = descend sort d dep (lookup dep all) s >>= visit sort all d deps

pub top_sort : ℕ → Files → FileProto → Progress → Outcome
top_sort zero all d s = out_of_fuel
top_sort (suc fuel) all d s =
    if contains s.seen d.name
    then done s
    else (visit (top_sort fuel all) all d d.dependency (mark d s) >>= λ t. done (emit d t))

-- the loop over the values of `all`, in the order in which the runtime yields them
pub sort_all : ℕ → Files → List FileProto → Progress → Outcome
sort_all fuel all [] s = done s
sort_all fuel all (d ∷ rest) s = top_sort fuel all d s >>= sort_all fuel all rest

-- `all[d.GetName()] = d` for each file of one reply
pub collect : List FileProto → Files → Files
collect [] all = all
collect (d ∷ rest) all = collect rest (insert d.name d all)

-- a call of the stream, whose error ends the load
abbrev pub attempt {ℓ} : {A : Type ℓ} → Result String A → (A → Outcome) → Outcome
attempt (ok a) k = k a
attempt (err e) k = failed (stream e)

-- the loop over the service names
pub gather : (String → Result String (List FileProto)) → List String → Files → Result String Files
gather file_containing_symbol [] all = ok all
gather file_containing_symbol (name ∷ names) all = file_containing_symbol name then_ok λ files.
    gather file_containing_symbol names (collect files all)

abbrev pub start : Progress
start = record { seen = []; ds = [] }

-- `iterate` is the order in which `range all` yields the values of the map.
pub load_descriptors :
    Result String (List String)
    → (String → Result String (List FileProto))
    → Result String (Unit {0})
    → (Files → List FileProto)
    → Outcome
load_descriptors list_services file_containing_symbol close iterate =
    attempt list_services λ services.
      attempt (gather file_containing_symbol services [])
        λ all. attempt close λ _. sort_all (suc (length all)) all (iterate all) start
