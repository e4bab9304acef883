-- ===== src/Schema/Messages/Endless.antt =====
-- Messages that nest themselves, as google.protobuf.Value does through Struct and ListValue.
use grpcmcp.Base.{ℕ, zero, suc, ◌≡◌, refl, inl, inr, String}
use grpcmcp.Schema.Json.{Entries}
use grpcmcp.Schema.Values.{Generator, out_of_fuel, Nested}
use grpcmcp.Schema.Messages.{generate_message, no_parts}
use grpcmcp.Schema.Messages.Related.{Agree, add_fields-related}
use grpcmcp.Schema.Messages.Targets.{AllUsable, AllUsable-weaken}
use grpcmcp.Schema.Messages.Stuck.{
  Going, Going-bind, stuck-bind, Going-IsKept, SomeLeads, add_fields-stuck,
}

-- the rules of the fields of these messages resolve, and they nest only such messages
abbrev pub Sound : Generator → (String → Type 0) → Type 0
Sound g S = (name : String) → S name → AllUsable g S (g.messages name).fields

module _ (g : Generator) (S P : String → Type 0) (sound : Sound g S)
    (within : (name : String) → P name → S name)
    (recurs : (name : String) → P name → SomeLeads g P (g.messages name).fields) where
  generate_message-Going :
      (fuel : ℕ) (name : String) (schema : Entries)
      → S name
      → Going (generate_message fuel g (g.messages name) schema)
  unfolding generate_message
  generate_message-Going zero name schema has = inr refl
  generate_message-Going (suc fuel) name schema has =
      let m : Nested = λ t s. generate_message fuel g (g.messages t) s in
      Going-bind _
        (add_fields-related g m m (λ A x y. Going x) Going-IsKept (g.messages name).fields no_parts
          (AllUsable-weaken g S (Agree g m m (λ A x y. Going x) Going-IsKept)
            (λ t in_set s. generate_message-Going fuel t s in_set) (g.messages name).fields
            (sound name has)))
        (λ parts. inl (_, refl))

  -- No fuel is enough for a message that nests itself: a message of a set of which each has a field,
  -- not ignored, that nests a message of the set, also as the value of a map, where the rules of all
  -- fields resolve.
  pub generate_message-endless :
      (fuel : ℕ) (name : String) (schema : Entries)
      → P name
      → generate_message fuel g (g.messages name) schema ≡ out_of_fuel
  unfolding generate_message
  generate_message-endless zero name schema has = refl
  generate_message-endless (suc fuel) name schema has =
      let m : Nested = λ t s. generate_message fuel g (g.messages t) s in
      stuck-bind _ (
        add_fields-stuck g m P (λ t in_set s. generate_message-endless fuel t s in_set)
          (g.messages name).fields no_parts
          (AllUsable-weaken g S (Agree g m m (λ A x y. Going x) Going-IsKept)
            (λ t in_set s. generate_message-Going fuel t s in_set) (g.messages name).fields
            (sound name (within name has)))
          (recurs name has))
