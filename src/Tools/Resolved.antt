-- ===== src/Tools/Resolved.antt =====
-- Files whose dependencies stand in front of them: each finds its own in the registry.
use mathlib.Core.Path.{subst}
use mathlib.Core.List.{Memᴰ}
use grpcmcp.Base.{
  String, ◌≡◌, ◌⊎◌, inl, inr, refl, sym, ◌∙◌, Has-head, Has-tail, true, false, ◌||◌, List, [], ◌∷◌,
  Has, NoDup, contains, arith, ◌==◌, eq_iff,
}
use grpcmcp.Base.Results.{ok}
use grpcmcp.Descriptor.{FileProto}
use grpcmcp.Naming.{Registries, build_registry_from, build_registry, add_new}
use grpcmcp.Reflection.Contract.{DepsFirst}
use grpcmcp.Reflection.Step.{names}

module _ {R : Type 0} (lib : Registries R) where
  -- the registry after a file
  pub record Adds (reg : R) (f : FileProto) : Type 0 where
    pub next : R
    pub registered : lib.register_file reg f ≡ ok next
    pub paths : (p : String) → lib.has_path next p ≡ (f.name == p || lib.has_path reg p)
    pub newest : Memᴰ f (lib.range_files next)
    pub older : (g : FileProto) → Memᴰ g (lib.range_files reg) → Memᴰ g (lib.range_files next)

  -- What protodesc and protoregistry document of files that protoc made and of which no two declare one
  -- symbol: a file is resolved against a registry with its dependencies, and registered under a path
  -- that is new.
  pub record IsRegistry (fds : List FileProto) : Type 0 where
    pub empty_paths : (p : String) → lib.has_path lib.empty p ≡ false
    pub resolves :
        (f : FileProto) (reg : R)
        → Memᴰ f fds
        → ((x : String) → Has f.dependency x → lib.has_path reg x ≡ true)
        → lib.new_file f reg ≡ ok f
    pub registers :
        (f : FileProto) (reg : R) → Memᴰ f fds → lib.has_path reg f.name ≡ false → Adds reg f

  -- the registry has exactly these paths
  abbrev pub HasPaths : R → List String → Type 0
  HasPaths reg before = (p : String) → lib.has_path reg p ≡ contains before p

  -- the state of the loop in front of the files `fs`, when those in `before` are registered
  pub record IsNext (fds : List FileProto) (reg : R) (before : List String) (fs : List FileProto)
      : Type 0 where
    pub paths : HasPaths reg before
    pub given : (f : FileProto) → Memᴰ f fs → Memᴰ f fds
    pub ordered : DepsFirst before fs
    pub distinct : NoDup (names fs)
    pub apart : (p : String) → Has (names fs) p → contains before p ≡ false

  module _ {fds : List FileProto} (laws : IsRegistry fds) where
    -- the next file is resolved and registered, and the loop goes on
    pub record IsStep (reg : R) (before : List String) (f : FileProto) (fs : List FileProto)
        : Type 0 where
      pub resolved : lib.new_file f reg ≡ ok f
      pub fresh : lib.has_path reg f.name ≡ false
      pub added : Adds reg f
      pub rest : IsNext fds added.next (f.name ∷ before) fs

    pub IsNext-IsStep :
        (reg : R) (before : List String) (f : FileProto) (fs : List FileProto)
        → IsNext fds reg before (f ∷ fs)
        → IsStep reg before f fs
    unfolding contains
    IsNext-IsStep reg before f fs n =
        let fresh = n.paths f.name ∙ n.apart f.name (Has-head (names fs) f.name) in
        let added = laws.registers f reg (n.given f (Memᴰ.head refl)) fresh in
        record {
          resolved =
              laws.resolves f reg (n.given f (Memᴰ.head refl))
                (λ x dep. n.paths x ∙ n.ordered.0 x dep);
          fresh = fresh;
          added = added;
          rest = record {
            paths = λ p. ground (arith, added.paths p, n.paths p);
            given = λ g h. n.given g (Memᴰ.tail h);
            ordered = n.ordered.1;
            distinct = n.distinct.1;
            apart = λ p h. ground (
              arith,
              h,
              n.distinct.0,
              n.apart p (Has-tail (names fs) f.name p h),
              eq_iff f.name p,
            );
          };
        }

    -- what a file adds to the registry, as `buildRegistry` does it
    add_new-eq :
        (reg : R) (before : List String) (f : FileProto) (fs : List FileProto)
        (s : IsStep reg before f fs)
        → add_new lib reg (lib.new_file f reg) ≡ s.added.next
    add_new-eq reg before f fs s = rw (s.resolved, s.fresh) (rw s.added.registered refl)

    build_registry_from-holds :
        (fs : List FileProto) (reg : R) (before : List String) (g : FileProto)
        → IsNext fds reg before fs
        → Memᴰ g fs ⊎ Memᴰ g (lib.range_files reg)
        → Memᴰ g (lib.range_files (build_registry_from lib fs reg))
    unfolding build_registry_from
    build_registry_from-holds [] reg before g n (inl h) = elim h [ ]
    build_registry_from-holds [] reg before g n (inr h) = h
    build_registry_from-holds (f ∷ fs) reg before g n h =
        let s = IsNext-IsStep reg before f fs n in
        subst (λ r. Memᴰ g (lib.range_files (build_registry_from lib fs r)))
          (sym (add_new-eq reg before f fs s))
          (build_registry_from-holds fs s.added.next (f.name ∷ before) g s.rest (go s h))
      where
        go :
            (s : IsStep reg before f fs)
            → Memᴰ g (f ∷ fs) ⊎ Memᴰ g (lib.range_files reg)
            → Memᴰ g fs ⊎ Memᴰ g (lib.range_files s.added.next)
        go s (inl (Memᴰ.head e)) =
            inr (subst (λ x. Memᴰ x (lib.range_files s.added.next)) (sym e) s.added.newest)
        go s (inl (Memᴰ.tail later)) = inl later
        go s (inr there) = inr (s.added.older g there)

    -- the state in front of all files
    pub IsNext-start : DepsFirst [] fds → NoDup (names fds) → IsNext fds lib.empty [] fds
    unfolding contains
    IsNext-start ordered distinct = record {
      paths = laws.empty_paths;
      given = λ f h. h;
      ordered = ordered;
      distinct = distinct;
      apart = λ p h. refl;
    }

    -- The registry that is built from files in the order of their dependencies holds them all.
    pub build_registry-holds :
        DepsFirst [] fds
        → NoDup (names fds)
        → (g : FileProto) → Memᴰ g fds
        → Memᴰ g (lib.range_files (build_registry lib fds))
    unfolding build_registry
    build_registry-holds ordered distinct g h =
        build_registry_from-holds fds lib.empty [] g (IsNext-start ordered distinct) (inl h)
