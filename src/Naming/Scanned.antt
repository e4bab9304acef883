-- ===== src/Naming/Scanned.antt =====
-- The members of the lists that the scan stands for: which services and methods they come from.
use mathlib.Core.Path.{subst}
use mathlib.Core.List.Memᴰ
use mathlib.Core.List.{Memᴰ, map-append}
use grpcmcp.Base.{
  String, ◌≡◌, refl, sym, ap, ◌∙◌, inl, inr, Bool, true, false, Option, List, [], ◌∷◌, ◌++◌, map,
  arith, Bool-cases, if◌then◌else◌,
}
use grpcmcp.Descriptor.{Method, Service, FileProto}
use grpcmcp.Naming.{selected, exposed}
use grpcmcp.Naming.Counting.{
  exposing_in, exposing_names, exposed_in, exposed_pairs, exposed_of, with_service, is_cons,
}

module _ (services : List String) (filter : Option (Method → Bool)) where
  Memᴰ-exposed_of :
      {m : Method} (ms : List Method)
      → Memᴰ m (exposed_of services filter ms)
      → (exposed filter m ≡ true) × Memᴰ m ms
  unfolding exposed_of
  Memᴰ-exposed_of [] h = elim h [ ]
  Memᴰ-exposed_of (x ∷ ms) h = elim (Bool-cases (exposed filter x)) [
    | inl shown ↦ elim (simp (shown, if◌then◌else◌) at h) [
      | Memᴰ.head e ↦ (ap (exposed filter) e ∙ shown, Memᴰ.head e)
      | Memᴰ.tail later ↦ let (a, b) = Memᴰ-exposed_of ms later in (a, Memᴰ.tail b)
    ]
    | inr hidden ↦
        let (a, b) = Memᴰ-exposed_of ms (simp (hidden, if◌then◌else◌) at h) in (a, Memᴰ.tail b)
  ]

  Memᴰ-with_service :
      {p : Service × Method} (s : Service) (ms : List Method)
      → Memᴰ p (with_service services filter s ms)
      → (p.0 ≡ s) × Memᴰ p.1 ms × (is_cons services filter ms ≡ true)
  Memᴰ-with_service s [] h = elim h [ ]
  Memᴰ-with_service s (m ∷ ms) (Memᴰ.head e) = (ap (λ p. p.0) e, Memᴰ.head (ap (λ p. p.1) e), refl)
  Memᴰ-with_service s (m ∷ ms) (Memᴰ.tail h) =
      let (a, b, c) = Memᴰ-with_service s ms h in (a, Memᴰ.tail b, refl)

  -- the services with a tool
  pub exposing : List Service → List Service
  exposing [] = []
  exposing (s ∷ ss) =
      let rest = exposing ss in
      if selected services s
      then (if is_cons services filter (exposed_of services filter s.methods)
          then s ∷ rest
          else rest)
      else rest

  pub exposing_files : List FileProto → List Service
  exposing_files [] = []
  exposing_files (f ∷ fs) = exposing f.services ++ exposing_files fs

  -- a pair of the scan: a selected service, and a method of it that is exposed
  pub record IsExposed (p : Service × Method) : Type 0 where
    pub service_selected : selected services p.0 ≡ true
    pub method_exposed : exposed filter p.1 ≡ true
    pub method_of : Memᴰ p.1 p.0.methods

  if_cons :
      {s : Service} (x : Service) {xs : List Service} (b : Bool)
      → Memᴰ s xs
      → Memᴰ s (if b then x ∷ xs else xs)
  if_cons x true h = Memᴰ.tail h
  if_cons x false h = h

  Memᴰ-exposed_pairs :
      {p : Service × Method} (ss : List Service)
      → Memᴰ p (exposed_pairs services filter ss)
      → IsExposed p × Memᴰ p.0 (exposing ss)
  unfolding exposed_pairs exposing
  Memᴰ-exposed_pairs [] h = elim h [ ]
  Memᴰ-exposed_pairs {p} (s ∷ ss) h = elim (Bool-cases (selected services s)) [
    | inl chosen ↦
        elim (Memᴰ.append_cases
          (with_service services filter s (exposed_of services filter s.methods))
          (simp (chosen, if◌then◌else◌) at h)) [
            | inl here ↦
                let (e, found, some_tool) =
                  Memᴰ-with_service s (exposed_of services filter s.methods) here in
                let (shown, member) = Memᴰ-exposed_of s.methods found in
                (
                  record {
                    service_selected = ap (selected services) e ∙ chosen;
                    method_exposed = shown;
                    method_of = subst (λ x. Memᴰ p.1 x.methods) (sym e) member;
                  },
                  rw chosen (rw some_tool (Memᴰ.head e)),
                )
            | inr there ↦
                let (a, b) = Memᴰ-exposed_pairs ss there in
                (
                  a,
                  rw chosen (
                      if_cons s (is_cons services filter (exposed_of services filter s.methods)) b),
                )
          ]
    | inr other ↦
        let (a, b) = Memᴰ-exposed_pairs ss (simp (other, if◌then◌else◌) at h) in (a, rw other b)
  ]

  pub Memᴰ-exposed_in :
      {p : Service × Method} (fs : List FileProto)
      → Memᴰ p (exposed_in services filter fs)
      → IsExposed p
        × Memᴰ p.0 (exposing_files fs)
        × ((f : FileProto) × Memᴰ f fs × Memᴰ p (exposed_pairs services filter f.services))
  unfolding exposed_in exposing_files
  Memᴰ-exposed_in [] h = elim h [ ]
  Memᴰ-exposed_in (f ∷ fs) h =
      elim (Memᴰ.append_cases (exposed_pairs services filter f.services) h) [
        | inl here ↦
            let (a, b) = Memᴰ-exposed_pairs f.services here in
            (a, Memᴰ.append_left (exposing_files fs) b, (f, Memᴰ.head refl, here))
        | inr there ↦
            let (a, b, (g, c, d)) = Memᴰ-exposed_in fs there in
            (a, Memᴰ.append_right (exposing f.services) b, (g, Memᴰ.tail c, d))
      ]

  -- the pairs of a file are among those of the files
  pub exposed_in-Memᴰ :
      (p : Service × Method) (f : FileProto) (fs : List FileProto)
      → Memᴰ f fs
      → Memᴰ p (exposed_pairs services filter f.services)
      → Memᴰ p (exposed_in services filter fs)
  unfolding exposed_in
  exposed_in-Memᴰ p f [] h k = elim h [ ]
  exposed_in-Memᴰ p f (g ∷ fs) (Memᴰ.head e) k =
      Memᴰ.append_left (exposed_in services filter fs)
        (subst (λ x. Memᴰ p (exposed_pairs services filter x.services)) e k)
  exposed_in-Memᴰ p f (g ∷ fs) (Memᴰ.tail h) k =
      Memᴰ.append_right (exposed_pairs services filter g.services) (exposed_in-Memᴰ p f fs h k)

  abbrev pub service_name : Service → String
  service_name s = s.name

  exposing_names-map :
      (ss : List Service) → exposing_names services filter ss ≡ map service_name (exposing ss)
  unfolding exposing_names exposing
  exposing_names-map [] = refl
  exposing_names-map (s ∷ ss) = ground (arith, exposing_names-map ss)

  pub exposing_in-map :
      (fs : List FileProto) → exposing_in services filter fs ≡ map service_name (exposing_files fs)
  unfolding exposing_in exposing_files
  exposing_in-map [] = refl
  exposing_in-map (f ∷ fs) =
      ap (λ l. l ++ exposing_in services filter fs) (exposing_names-map f.services)
      ∙ ap (λ l. map service_name (exposing f.services) ++ l) (exposing_in-map fs)
      ∙ sym (map-append service_name (exposing f.services) (exposing_files fs))
