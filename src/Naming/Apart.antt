-- ===== src/Naming/Apart.antt =====
-- The names that the namer gives to the methods of a scan.
use mathlib.Core.List.{Memᴰ}
use grpcmcp.Base.{
  ℕ, String, refl, ◌≡◌, ◌≤◌, sym, ap, ◌∙◌, Bool, false, Option, List, map, arith, ltb,
}
use grpcmcp.Descriptor.{Method, Service, FileProto}
use grpcmcp.Naming.{Registries, build_registry, build_tool_namer}
use grpcmcp.Naming.Counting.{
  occurrences, exposing_in, exposed_in, method_name_of, build_tool_namer_lem,
}
use grpcmcp.Naming.Distinct.{Same, IsPlain, generated-Same, only}
use grpcmcp.Naming.Scanned.{exposing_files, service_name, exposing_in-map, Memᴰ-exposed_in}

module _ {R : Type 0} (lib : Registries R) (services : List String)
    (filter : Option (Method → Bool)) (fds : List FileProto) where
  abbrev pub scanned : List FileProto
  scanned = lib.range_files (build_registry lib fds)

  -- the registry holds the files of the descriptors
  abbrev pub HoldsAll : Type 0
  HoldsAll = (f : FileProto) → Memᴰ f fds → Memᴰ f (lib.range_files (build_registry lib fds))

  abbrev pub named : Service × Method → String
  named (s, m) = build_tool_namer lib fds services filter s m

  few : (n : ℕ) → ltb 1 n ≡ false → n ≤ 1
  few n h = ground arith

  pub named-Same :
      (p q : Service × Method)
      → Memᴰ p (exposed_in services filter scanned)
      → Memᴰ q (exposed_in services filter scanned)
      → IsPlain p
      → IsPlain q
      → named p ≡ named q
      → Same p q
  named-Same p q h k plain plain' e =
      generated-Same (short p) (short q) (very p) (very q) p q plain plain'
        (λ same. ap (λ n. ltb 1 (occurrences n (exposing_in services filter scanned))) same)
        (λ alone same.
          ap (λ s. s.full_name)
            (only (service_name services filter) (exposing_files services filter scanned) p.0.name
              (few _ (
                ap (λ l. ltb 1 (occurrences p.0.name l))
                  (sym (exposing_in-map services filter scanned))
                ∙ alone))
              (Memᴰ-exposed_in services filter scanned h).1
              (Memᴰ-exposed_in services filter scanned k).1 refl (sym same)))
        (λ sole same.
          only (method_name_of services filter) (exposed_in services filter scanned) p.1.name
            (few _ sole) h k refl (sym same))
        (sym (build_tool_namer_lem services filter lib fds p.0 p.1)
          ∙ e
          ∙ build_tool_namer_lem services filter lib fds q.0 q.1)
    where
      short : Service × Method → Bool
      short r = ltb 1 (occurrences r.0.name (exposing_in services filter scanned))

      very : Service × Method → Bool
      very r = ltb 1 (
          occurrences r.1.name
            (map (method_name_of services filter) (exposed_in services filter scanned)))
