-- ===== src/Naming/Counting.antt =====
-- What the scan in front of the naming counts.
use grpcmcp.Base.{
  ℕ, suc, String, ◌≡◌, refl, ◌+◌, ◌∙◌, ap, Bool, true, false, ◌||◌, Option, List, [], ◌∷◌, ◌++◌,
  map, ltb, arith, ◌==◌, eq_iff, lookup, lookup-insert, if◌then◌else◌, Bool-cases, inl, inr,
}
use grpcmcp.Descriptor.{Method, Service, FileProto}
use grpcmcp.Naming.{
  Counts, Registries, selected, exposed, tally, or_zero, increment, scan_methods, scan_service,
  scan_services, scan_files, no_counts, name_tool, generate_tool_name, build_registry,
  build_tool_namer,
}

-- how often a name stands in a list
unfoldable pub occurrences : String → List String → ℕ
occurrences k [] = 0
occurrences k (x ∷ xs) = let n = occurrences k xs in if x == k then suc n else n

occurrences-append :
    (k : String) (xs ys : List String)
    → occurrences k (xs ++ ys) ≡ occurrences k xs + occurrences k ys
unfolding occurrences
occurrences-append k [] ys = omega arith
occurrences-append k (x ∷ xs) ys = ground (arith, occurrences-append k xs ys)

tally-increment :
    (k j : String) (m : List (String × ℕ))
    → tally j (increment k m) ≡ (if k == j then suc (tally j m) else tally j m)
unfolding tally increment
tally-increment k j m = ground (arith, lookup-insert k j (suc (or_zero (lookup k m))) m, eq_iff k j)

module _ (services : List String) (filter : Option (Method → Bool)) where
  -- the methods of a service that become tools
  unfoldable pub exposed_of : List Method → List Method
  exposed_of [] = []
  exposed_of (m ∷ ms) = let rest = exposed_of ms in if exposed filter m then m ∷ rest else rest

  -- the pairs of a selected service and a method that become tools, in order
  abbrev pub with_service : Service → List Method → List (Service × Method)
  with_service s [] = []
  with_service s (m ∷ ms) = (s, m) ∷ with_service s ms

  unfoldable pub exposed_pairs : List Service → List (Service × Method)
  unfolding exposed_of
  exposed_pairs [] = []
  exposed_pairs (s ∷ ss) =
      let rest = exposed_pairs ss in
      if selected services s then with_service s (exposed_of s.methods) ++ rest else rest

  unfoldable pub exposed_in : List FileProto → List (Service × Method)
  unfolding exposed_pairs
  exposed_in [] = []
  exposed_in (f ∷ fs) = exposed_pairs f.services ++ exposed_in fs

  abbrev pub is_cons : List Method → Bool
  is_cons [] = false
  is_cons (m ∷ ms) = true

  -- the services with at least one tool, by their simple names
  unfoldable pub exposing_names : List Service → List String
  unfolding exposed_of
  exposing_names [] = []
  exposing_names (s ∷ ss) =
      let rest = exposing_names ss in
      if selected services s
      then (if is_cons (exposed_of s.methods) then s.name ∷ rest else rest)
      else rest

  unfoldable pub exposing_in : List FileProto → List String
  unfolding exposing_names
  exposing_in [] = []
  exposing_in (f ∷ fs) = exposing_names f.services ++ exposing_in fs

  abbrev pub method_name_of : Service × Method → String
  method_name_of (s, m) = m.name

  scan_methods_lem :
      (k : String) (s : Service) (ms : List Method) (found : Bool) (m : List (String × ℕ))
      → ((scan_methods services filter ms found m).0 ≡ (found || is_cons (exposed_of ms)))
        × (tally k (scan_methods services filter ms found m).1
            ≡ tally k m + occurrences k (map method_name_of (with_service s (exposed_of ms))))
  unfolding scan_methods exposed_of occurrences
  scan_methods_lem k s [] found m = (ground arith, ground arith)
  scan_methods_lem k s (x ∷ xs) found m = elim (Bool-cases (exposed filter x)) [
    | inl shown ↦
        let (a, b) = scan_methods_lem k s xs true (increment x.name m) in
        ground (arith, shown, a, b, tally-increment x.name k m)
    | inr hidden ↦ let (a, b) = scan_methods_lem k s xs found m in ground (arith, hidden, a, b)
  ]

  -- what one more service, and then one more file, adds to the counts
  abbrev Adds : Counts → Counts → List String → List String → Type 0
  Adds c c' simple methods =
      (k : String)
      → (tally k c'.simple_name ≡ tally k c.simple_name + occurrences k simple)
        × (tally k c'.method_name ≡ tally k c.method_name + occurrences k methods)

  map_append :
      (xs ys : List (Service × Method))
      → map method_name_of (xs ++ ys) ≡ map method_name_of xs ++ map method_name_of ys
  map_append [] ys = refl
  map_append (x ∷ xs) ys = ap (λ l. method_name_of x ∷ l) (map_append xs ys)

  scan_services-Adds :
      (ss : List Service) (c : Counts)
      → Adds c
          (scan_services services filter ss c)
          (exposing_names ss)
          (map method_name_of (exposed_pairs ss))
  unfolding scan_services scan_service exposing_names exposed_pairs occurrences
  scan_services-Adds [] c k = (omega arith, omega arith)
  scan_services-Adds (s ∷ ss) c k =
      let (a, b) = scan_methods_lem k s s.methods false c.method_name in
      let (x, y) = scan_services-Adds ss (scan_service services filter s c) k in
      let split =
        ap (occurrences k) (map_append (with_service s (exposed_of s.methods)) (exposed_pairs ss))
        ∙ occurrences-append k (map method_name_of (with_service s (exposed_of s.methods)))
            (map method_name_of (exposed_pairs ss)) in
      ground (arith, a, b, x, y, split, tally-increment s.name k c.simple_name)

  scan_files-Adds :
      (fs : List FileProto) (c : Counts)
      → Adds c
          (scan_files services filter fs c)
          (exposing_in fs)
          (map method_name_of (exposed_in fs))
  unfolding scan_files exposing_in exposed_in occurrences
  scan_files-Adds [] c k = (omega arith, omega arith)
  scan_files-Adds (f ∷ fs) c k =
      let (a, b) = scan_services-Adds f.services c k in
      let (x, y) = scan_files-Adds fs (scan_services services filter f.services c) k in
      let split =
        ap (occurrences k) (map_append (exposed_pairs f.services) (exposed_in fs))
        ∙ occurrences-append k (map method_name_of (exposed_pairs f.services))
            (map method_name_of (exposed_in fs)) in
      ground (
        arith,
        a,
        b,
        x,
        y,
        split,
        occurrences-append k (exposing_names f.services) (exposing_in fs),
      )

  scan_lem :
      (fs : List FileProto) (k : String)
      → (tally k (scan_files services filter fs no_counts).simple_name
          ≡ occurrences k (exposing_in fs))
        × (tally k (scan_files services filter fs no_counts).method_name
            ≡ occurrences k (map method_name_of (exposed_in fs)))
  unfolding tally lookup occurrences
  scan_lem fs k =
      let (a, b) = scan_files-Adds fs no_counts k in (omega (arith, a, b), omega (arith, a, b))

  -- The name of a tool is the method's own exactly when at most one method that becomes a tool is
  -- named so; the simple service name is put in front when at most one service with a tool bears
  -- it, and the full name otherwise. The tools are those of the files that the registry holds.
  pub build_tool_namer_lem :
      {R : Type 0} (lib : Registries R) (fds : List FileProto) (s : Service) (m : Method)
      → build_tool_namer lib fds services filter s m
        ≡ generate_tool_name
            (ltb 1 (occurrences s.name (exposing_in (lib.range_files (build_registry lib fds)))))
            (ltb 1 (
              occurrences m.name
                (map method_name_of (exposed_in (lib.range_files (build_registry lib fds))))))
            s.full_name
            s.name
            m.name
  unfolding build_tool_namer name_tool
  build_tool_namer_lem {R} lib fds s m =
      let files = lib.range_files (build_registry lib fds) in
      rw ((scan_lem files s.name).0) (rw ((scan_lem files m.name).1) refl)
