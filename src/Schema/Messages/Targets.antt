-- ===== src/Schema/Messages/Targets.antt =====
-- Which message the schema of a field nests, and what the generation of a field needs of it.
use grpcmcp.Base.{
  ◌≡◌, refl, ap, ◌⊎◌, inl, inr, Bool, true, false, Option, none, some, List, [], ◌∷◌, String,
}
use grpcmcp.Base.Results.{ok}
use grpcmcp.Schema.Json.{Entries}
use grpcmcp.Schema.Fields.{
  Options, Rules, FieldRules, Kind, bool_kind, string_kind, bytes_kind, float_kind, double_kind,
  int32_kind, sint32_kind, sfixed32_kind, int64_kind, sint64_kind, sfixed64_kind, uint32_kind,
  fixed32_kind, uint64_kind, fixed64_kind, enum_kind, message_kind, group_kind, Field,
}
use grpcmcp.Schema.Values.{
  Generator, made, Nested, field_ignore, should_ignore_field, get_field_rules, value_validation,
  entry_fields, rules_of, unless_always,
}

-- the message of a field of this kind
abbrev pub target : Kind → Option String
target (message_kind n) = some n
target (group_kind n) = some n
target _ = none

-- the nested message, or a schema that does not depend on it
pub value-cases :
    (p : Options) (k : Kind) (f : Field) (i : Bool) (r : Option Rules) (s : Entries)
    → ((t : String) × (target k ≡ some t) × ((m : Nested) → value_validation p m k f i r s ≡ m t s))
      ⊎ ((a : Entries) × (target k ≡ none)
          × ((m : Nested) → value_validation p m k f i r s ≡ made a))
unfolding value_validation
value-cases p bool_kind f i r s = inr (_, refl, λ m. refl)
value-cases p (enum_kind t) f i r s = inr (_, refl, λ m. refl)
value-cases p int32_kind f i r s = inr (_, refl, λ m. refl)
value-cases p sint32_kind f i r s = inr (_, refl, λ m. refl)
value-cases p sfixed32_kind f i r s = inr (_, refl, λ m. refl)
value-cases p int64_kind f i r s = inr (_, refl, λ m. refl)
value-cases p sint64_kind f i r s = inr (_, refl, λ m. refl)
value-cases p sfixed64_kind f i r s = inr (_, refl, λ m. refl)
value-cases p uint32_kind f i r s = inr (_, refl, λ m. refl)
value-cases p fixed32_kind f i r s = inr (_, refl, λ m. refl)
value-cases p uint64_kind f i r s = inr (_, refl, λ m. refl)
value-cases p fixed64_kind f i r s = inr (_, refl, λ m. refl)
value-cases p float_kind f i r s = inr (_, refl, λ m. refl)
value-cases p double_kind f i r s = inr (_, refl, λ m. refl)
value-cases p string_kind f i r s = inr (_, refl, λ m. refl)
value-cases p bytes_kind f i r s = inr (_, refl, λ m. refl)
value-cases p (message_kind n) f i r s = inl (n, refl, λ m. refl)
value-cases p (group_kind n) f i r s = inl (n, refl, λ m. refl)

-- each message that a value of this kind nests has the property
abbrev pub Targets : (String → Type 0) → Kind → Type 0
Targets P k = (t : String) → target k ≡ some t → P t

-- the fields of an entry message are those of a key and of a value
abbrev pub EntryTargets : (String → Type 0) → List Field → Type 0
EntryTargets P (k ∷ v ∷ fields) = Targets P k.kind × Targets P v.kind
EntryTargets P (k ∷ []) = ⊥
EntryTargets P [] = ⊥

-- The rules of the field resolve, its map has an entry message, and the messages that it nests have
-- the property.
pub record IsUsable (g : Generator) (P : String → Type 0) (field : Field) : Type 0 where
  pub resolves : (r : Option FieldRules) × (field.resolved ≡ ok r)
  pub of_map : field.is_map ≡ true → EntryTargets P (entry_fields g field.kind)
  pub of_value : field.is_map ≡ false → Targets P field.kind

-- all fields that are not ignored
abbrev pub AllUsable : Generator → (String → Type 0) → List Field → Type 0
AllUsable g P [] = Unit
AllUsable g P (f ∷ fs) = (should_ignore_field f ≡ field_ignore ⊎ IsUsable g P f) × AllUsable g P fs

pub get_field_rules-made :
    (field : Field) (r : Option FieldRules)
    → field.resolved ≡ ok r
    → (q : Option FieldRules) × (get_field_rules field ≡ made q)
unfolding get_field_rules
get_field_rules-made field none e = (none, ap rules_of e)
get_field_rules-made field (some r) e = (unless_always r r.rules.ignore, ap rules_of e)

module _ (g : Generator) (P Q : String → Type 0) (weaken : (t : String) → P t → Q t) where
  EntryTargets-weaken : (fields : List Field) → EntryTargets P fields → EntryTargets Q fields
  EntryTargets-weaken [] h = absurd h
  EntryTargets-weaken (k ∷ []) h = absurd h
  EntryTargets-weaken (k ∷ v ∷ fields) (a, b) = (λ t e. weaken t (a t e), λ t e. weaken t (b t e))

  IsUsable-weaken : (field : Field) → IsUsable g P field → IsUsable g Q field
  IsUsable-weaken field u = record {
    resolves = u.resolves;
    of_map = λ e. EntryTargets-weaken (entry_fields g field.kind) (u.of_map e);
    of_value = λ e t h. weaken t (u.of_value e t h);
  }

  pub AllUsable-weaken : (fields : List Field) → AllUsable g P fields → AllUsable g Q fields
  AllUsable-weaken [] h = tt
  AllUsable-weaken (f ∷ fs) (inl ignored, h) = (inl ignored, AllUsable-weaken fs h)
  AllUsable-weaken (f ∷ fs) (inr u, h) = (inr (IsUsable-weaken f u), AllUsable-weaken fs h)
