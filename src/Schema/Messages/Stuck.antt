-- ===== src/Schema/Messages/Stuck.antt =====
-- The steps of `generateMessage`: each gives a result or runs out of fuel, and runs out where a nested
-- message does.
use grpcmcp.Base.{
  ◌≡◌, ◌≢◌, refl, ap, ◌∙◌, ◌⊎◌, inl, inr, Bool, true, false, Option, some, List, [], ◌∷◌, String,
  arith, if◌then◌else◌,
}
use grpcmcp.Base.Results.{Result}
use grpcmcp.Schema.Json.{Entries, empty}
use grpcmcp.Schema.Fields.{Rules, FieldRules, Kind, Field}
use grpcmcp.Schema.Values.{
  Generator, Gen, made, out_of_fuel, ◌>>=◌, Nested, Visibility, field_visible, field_hide,
  field_ignore, should_ignore_field, value_validation, map_validation, switch_validation,
  generate_field_validation, entry_fields, rules_of_keys, rules_of_values, of_map, own_rules,
  item_rules, repeated, set_description,
}
use grpcmcp.Schema.Messages.{
  Parts, add_field, add_fields, add_unless_ignored, with_field, generate_field,
}
use grpcmcp.Schema.Messages.Related.{IsKept, Agree, value-related, unless_ignored-related}
use grpcmcp.Schema.Messages.Targets.{
  target, value-cases, EntryTargets, IsUsable, AllUsable, get_field_rules-made,
}

-- no error: a result, or none within the fuel
abbrev pub Going {ℓ} : {A : Type ℓ} → Gen A → Type ℓ
Going {A = A} x = ((a : A) × (x ≡ made a)) ⊎ (x ≡ out_of_fuel)

pub Going-bind {ℓ κ} :
    {A : Type ℓ} {B : Type κ} {x : Gen A} (f : A → Gen B)
    → Going x
    → ((a : A) → Going (f a))
    → Going (x >>= f)
Going-bind f (inr e) rest = inr (ap (λ c. c >>= f) e)
Going-bind f (inl (a, e)) rest = elim (rest a) [
  | inl (b, u) ↦ inl (b, ap (λ c. c >>= f) e ∙ u)
  | inr u ↦ inr (ap (λ c. c >>= f) e ∙ u)
]

-- a chain that does not end at its first step or behind it
bind-out_of_fuel {ℓ κ} :
    {A : Type ℓ} {B : Type κ} {x : Gen A} (f : A → Gen B)
    → Going x
    → ((a : A) → f a ≡ out_of_fuel)
    → (x >>= f) ≡ out_of_fuel
bind-out_of_fuel f (inr e) rest = ap (λ c. c >>= f) e
bind-out_of_fuel f (inl (a, e)) rest = ap (λ c. c >>= f) e ∙ rest a

pub stuck-bind {ℓ κ} :
    {A : Type ℓ} {B : Type κ} {x : Gen A} (f : A → Gen B)
    → x ≡ out_of_fuel
    → (x >>= f) ≡ out_of_fuel
stuck-bind f e = ap (λ c. c >>= f) e

either-stuck {ℓ} :
    {A : Type ℓ} {x y : Gen A} (b : Bool)
    → x ≡ out_of_fuel
    → y ≡ out_of_fuel
    → (if b then x else y) ≡ out_of_fuel
either-stuck true p q = p
either-stuck false p q = q

with_field-Going {ℓ} :
    {A : Type ℓ} {x : Gen A} (field : Field) → Going x → Going (with_field field x)
with_field-Going field (inl (a, e)) = inl (a, ap (with_field field) e)
with_field-Going field (inr e) = inr (ap (with_field field) e)

pub Going-IsKept : IsKept (λ A x y. Going x)
Going-IsKept = record {
  of_made = λ a. inl (a, refl);
  of_bind = λ f h. Going-bind f;
  of_with_field = with_field-Going;
}

-- the schema of the field nests a message with the property, in the value of a map or at once
abbrev pub EntryLeads : (String → Type 0) → List Field → Type 0
EntryLeads P (k ∷ v ∷ fields) = (t : String) × (target v.kind ≡ some t) × P t
EntryLeads P (k ∷ []) = ⊥
EntryLeads P [] = ⊥

abbrev pub Leads : Generator → (String → Type 0) → Field → Type 0
Leads g P field =
    ((field.is_map ≡ true) × EntryLeads P (entry_fields g field.kind))
    ⊎ ((field.is_map ≡ false) × (t : String) × (target field.kind ≡ some t) × P t)

-- some field does that is not ignored
abbrev pub SomeLeads : Generator → (String → Type 0) → List Field → Type 0
SomeLeads g P [] = ⊥
SomeLeads g P (f ∷ fs) = ((should_ignore_field f ≢ field_ignore) × Leads g P f) ⊎ SomeLeads g P fs

module _ (g : Generator) (m : Nested) (P : String → Type 0)
    (stuck : (t : String) → P t → (s : Entries) → m t s ≡ out_of_fuel) where
  abbrev Goes : String → Type 0
  Goes = Agree g m m (λ A x y. Going x) Going-IsKept

  value-stuck :
      (k : Kind) (f : Field) (i : Bool) (r : Option Rules) (s : Entries) (t : String)
      → target k ≡ some t
      → P t
      → value_validation g.options m k f i r s ≡ out_of_fuel
  value-stuck k f i r s t is_target has = elim (value-cases g.options k f i r s) [
    | inl (u, is_u, same) ↦ ground (arith, is_u, is_target, same m, stuck t has s)
    | inr (a, no_target, same) ↦ ground (arith, no_target, is_target)
  ]

  map-stuck :
      (fields : List Field) (field : Field) (s : Entries) (r : Option FieldRules)
      → field.resolved ≡ Result.ok r
      → EntryTargets Goes fields
      → EntryLeads P fields
      → map_validation g.options m fields field s ≡ out_of_fuel
  unfolding map_validation
  map-stuck [] field s r e h l = absurd h
  map-stuck (k ∷ []) field s r e h l = absurd h
  map-stuck (k ∷ v ∷ fields) field s r e (of_key, of_value) (t, is_target, has) =
      let (rules, got) = get_field_rules-made field r e in
      bind-out_of_fuel _ (inl (rules, got)) (λ rs.
        bind-out_of_fuel _
          (value-related g m m (λ A x y. Going x) Going-IsKept k.kind k true
            (rules_of_keys (of_map rs)) empty of_key)
          (λ names.
            stuck-bind _
              (value-stuck v.kind v true (rules_of_values (of_map rs)) empty t is_target has)))

  switch-stuck :
      (field : Field) (i : Bool) (rules : Option Rules) (s : Entries)
      → IsUsable g Goes field
      → Leads g P field
      → switch_validation g m field i rules s ≡ out_of_fuel
  unfolding switch_validation
  switch-stuck field i rules s u (inl (is_map, leads)) = ground (
    arith,
    is_map,
    map-stuck (entry_fields g field.kind) field s u.resolves.0 u.resolves.1 (u.of_map is_map) leads,
  )
  switch-stuck field i rules s u (inr (no_map, t, is_target, has)) =
      ground (arith, no_map, value-stuck field.kind field i rules s t is_target has)

  field-stuck :
      (field : Field) (i : Bool) (rules : Option FieldRules) (s : Entries)
      → IsUsable g Goes field
      → Leads g P field
      → generate_field_validation g m field i rules s ≡ out_of_fuel
  unfolding generate_field_validation
  field-stuck field i rules s u leads =
      either-stuck field.is_list
        (stuck-bind _ (switch-stuck field true (item_rules (repeated rules)) empty u leads))
        (switch-stuck field i (own_rules rules) s u leads)

  add_field-stuck :
      (field : Field) (hide : Bool) (parts : Parts)
      → IsUsable g Goes field
      → Leads g P field
      → add_field g m field hide parts ≡ out_of_fuel
  unfolding add_field generate_field
  add_field-stuck field hide parts u leads =
      let (rules, got) = get_field_rules-made field u.resolves.0 u.resolves.1 in
      bind-out_of_fuel _ (inl (rules, got)) (λ rs. stuck-bind _ (
        ap (with_field field) (
          field-stuck field false rs
            (set_description g field.leading_comments field.trailing_comments empty) u leads)))

  unless_ignored-stuck :
      (field : Field) (v : Visibility) (parts : Parts)
      → v ≢ field_ignore
      → (v ≡ field_ignore) ⊎ IsUsable g Goes field
      → Leads g P field
      → add_unless_ignored g m field v parts ≡ out_of_fuel
  unless_ignored-stuck field v parts seen (inl e) leads = absurd (seen e)
  unless_ignored-stuck field field_ignore parts seen (inr u) leads = absurd (seen refl)
  unless_ignored-stuck field field_hide parts seen (inr u) leads =
      add_field-stuck field true parts u leads
  unless_ignored-stuck field field_visible parts seen (inr u) leads =
      add_field-stuck field false parts u leads

  pub add_fields-stuck :
      (fields : List Field) (parts : Parts)
      → AllUsable g Goes fields
      → SomeLeads g P fields
      → add_fields g m fields parts ≡ out_of_fuel
  unfolding add_fields
  add_fields-stuck [] parts u leads = absurd leads
  add_fields-stuck (f ∷ fs) parts (u, us) (inl (seen, leads)) =
      stuck-bind _ (unless_ignored-stuck f (should_ignore_field f) parts seen u leads)
  add_fields-stuck (f ∷ fs) parts (u, us) (inr later) =
      bind-out_of_fuel _
        (unless_ignored-related g m m (λ A x y. Going x) Going-IsKept f (should_ignore_field f)
          parts u)
        (λ p. add_fields-stuck fs p us later)
