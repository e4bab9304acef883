-- ===== src/Schema/Messages/Related.antt =====
-- Two generations of one message, with different functions for the nested messages: a relation that
-- chains of steps keep holds between the results if it holds for the nested messages.
use mathlib.Core.Path.{subst}
use grpcmcp.Base.{
  ◌≡◌, refl, sym, ◌⊎◌, inl, inr, Bool, true, false, Option, List, [], ◌∷◌, String, arith,
  if◌then◌else◌,
}
use grpcmcp.Base.Results.{Result}
use grpcmcp.Schema.Json.{Entries, empty}
use grpcmcp.Schema.Fields.{Rules, FieldRules, Kind, Field}
use grpcmcp.Schema.Values.{
  Generator, Gen, made, ◌>>=◌, Nested, Visibility, field_visible, field_hide, field_ignore,
  should_ignore_field, value_validation, map_validation, switch_validation,
  generate_field_validation, entry_fields, rules_of_keys, rules_of_values, of_map, own_rules,
  item_rules, repeated, set_description,
}
use grpcmcp.Schema.Messages.{
  Parts, add_field, add_fields, add_unless_ignored, with_field, generate_field,
}
use grpcmcp.Schema.Messages.Targets.{
  value-cases, Targets, EntryTargets, IsUsable, AllUsable, get_field_rules-made,
}

-- the steps that a generation is made of keep the relation
pub record IsKept (R : (A : Type 0) → Gen A → Gen A → Type 0) : Type 1 where
  pub of_made : {A : Type 0} (a : A) → R A (made a) (made a)
  pub of_bind :
      {A B : Type 0} {x y : Gen A} (f h : A → Gen B)
      → R A x y
      → ((a : A) → R B (f a) (h a))
      → R B (x >>= f) (y >>= h)
  pub of_with_field :
      {A : Type 0} {x y : Gen A} (field : Field)
      → R A x y
      → R A (with_field field x) (with_field field y)

module _ (g : Generator) (m n : Nested) (R : (A : Type 0) → Gen A → Gen A → Type 0)
    (kept : IsKept R) where
  -- the relation holds for the nested message
  abbrev pub Agree : String → Type 0
  Agree t = (s : Entries) → R _ (m t s) (n t s)

  related : {A : Type 0} {x x' y y' : Gen A} → x ≡ x' → y ≡ y' → R A x' y' → R A x y
  related {A = A} {x' = x'} {y = y} p q r =
      subst (λ u. R A u y) (sym p) (subst (λ v. R A x' v) (sym q) r)

  related-if :
      {A : Type 0} {x x' y y' : Gen A} (b : Bool)
      → (b ≡ true → R A x y)
      → (b ≡ false → R A x' y')
      → R A (if b then x else x') (if b then y else y')
  related-if true then_related else_related = then_related refl
  related-if false then_related else_related = else_related refl

  pub value-related :
      (k : Kind) (f : Field) (i : Bool) (r : Option Rules) (s : Entries)
      → Targets Agree k
      → R Entries (value_validation g.options m k f i r s) (value_validation g.options n k f i r s)
  value-related k f i r s agrees = elim (value-cases g.options k f i r s) [
    | inl (t, is_target, same) ↦ related (same m) (same n) (agrees t is_target s)
    | inr (a, _, same) ↦ related (same m) (same n) (kept.of_made a)
  ]

  map-related :
      (fields : List Field) (field : Field) (s : Entries) (r : Option FieldRules)
      → field.resolved ≡ Result.ok r
      → EntryTargets Agree fields
      → R Entries
          (map_validation g.options m fields field s)
          (map_validation g.options n fields field s)
  unfolding map_validation
  map-related [] field s r e h = absurd h
  map-related (k ∷ []) field s r e h = absurd h
  map-related (k ∷ v ∷ fields) field s r e (of_key, of_value) =
      let (rules, got) = get_field_rules-made field r e in
      kept.of_bind _ _ (related got got (kept.of_made rules)) (λ rs.
        kept.of_bind _ _ (value-related k.kind k true (rules_of_keys (of_map rs)) empty of_key)
          (λ names.
            kept.of_bind _ _
              (value-related v.kind v true (rules_of_values (of_map rs)) empty of_value)
              (λ values. kept.of_made _)))

  switch-related :
      (field : Field) (i : Bool) (rules : Option Rules) (s : Entries)
      → IsUsable g Agree field
      → R Entries (switch_validation g m field i rules s) (switch_validation g n field i rules s)
  unfolding switch_validation
  switch-related field i rules s u =
      related-if field.is_map
        (λ e.
          map-related (entry_fields g field.kind) field s u.resolves.0 u.resolves.1 (u.of_map e))
        (λ e. value-related field.kind field i rules s (u.of_value e))

  field-related :
      (field : Field) (i : Bool) (rules : Option FieldRules) (s : Entries)
      → IsUsable g Agree field
      → R Entries
          (generate_field_validation g m field i rules s)
          (generate_field_validation g n field i rules s)
  unfolding generate_field_validation
  field-related field i rules s u =
      related-if field.is_list
        (λ e.
          kept.of_bind _ _ (switch-related field true (item_rules (repeated rules)) empty u)
            (λ items. kept.of_made _))
        (λ e. switch-related field i (own_rules rules) s u)

  pub add_field-related :
      (field : Field) (hide : Bool) (parts : Parts)
      → IsUsable g Agree field
      → R Parts (add_field g m field hide parts) (add_field g n field hide parts)
  unfolding add_field generate_field
  add_field-related field hide parts u =
      let (rules, got) = get_field_rules-made field u.resolves.0 u.resolves.1 in
      kept.of_bind _ _ (related got got (kept.of_made rules)) (λ rs.
        kept.of_bind _ _
          (kept.of_with_field field (
            field-related field false rs
              (set_description g field.leading_comments field.trailing_comments empty) u))
          (λ s. kept.of_made _))

  pub unless_ignored-related :
      (field : Field) (v : Visibility) (parts : Parts)
      → (v ≡ field_ignore) ⊎ IsUsable g Agree field
      → R Parts (add_unless_ignored g m field v parts) (add_unless_ignored g n field v parts)
  unless_ignored-related field field_ignore parts h = kept.of_made parts
  unless_ignored-related field field_hide parts (inr u) = add_field-related field true parts u
  unless_ignored-related field field_visible parts (inr u) = add_field-related field false parts u
  unless_ignored-related field field_hide parts (inl e) = ground arith
  unless_ignored-related field field_visible parts (inl e) = ground arith

  pub add_fields-related :
      (fields : List Field) (parts : Parts)
      → AllUsable g Agree fields
      → R Parts (add_fields g m fields parts) (add_fields g n fields parts)
  unfolding add_fields
  add_fields-related [] parts u = kept.of_made parts
  add_fields-related (f ∷ fs) parts (u, us) =
      kept.of_bind _ _ (unless_ignored-related f (should_ignore_field f) parts u)
        (λ p. add_fields-related fs p us)
