-- ===== src/Schema/Messages/Kept.antt =====
-- Which keywords the end of a message's generation writes into its schema, and which it leaves.
use grpcmcp.Base.{
  ◌≡◌, refl, ◌∙◌, Bool, true, false, Option, none, some, List, [], ◌∷◌, String, arith, ◌==◌,
  if◌then◌else◌,
}
use grpcmcp.Base.Texts.{cut}
use grpcmcp.Schema.Json.{
  Json, flag, text, array, object, Entries, empty, entry, find, put, find-put, text_items,
}
use grpcmcp.Schema.Values.{Generator, set_description, sections, leading, trailing, text_of}
use grpcmcp.Schema.Messages.{Parts, put_parts, put_required, put_patterns}

-- the `required` keyword of these names
abbrev pub required_keyword : List String → Option Json
required_keyword [] = none
required_keyword (n ∷ ns) = some (array (text_items (n ∷ ns)))

pub find-put_other :
    (key other : String) (value : Json) (s : Entries)
    → (other == key) ≡ false
    → find key (put other value s) ≡ find key s
find-put_other key other value s e = ground (arith, find-put other key value s)

find-sections :
    (g : Generator) (parts : Option (String × String)) (s otherwise : Entries)
    → find "required" otherwise ≡ find "required" s
    → find "required" (sections g parts s otherwise) ≡ find "required" s
find-sections g none s otherwise e = e
find-sections g (some (a, b)) s otherwise e =
    find-put_other "required" "description" _ (put "title" (text (g.trim_space a)) s) refl
    ∙ find-put_other "required" "title" _ s refl

either-keeps :
    (b : Bool) (x y : Entries) {v : Option Json}
    → find "required" x ≡ v
    → find "required" y ≡ v
    → find "required" (if b then x else y) ≡ v
either-keeps true x y p q = p
either-keeps false x y p q = q

-- the comments of a message do not change what is required
pub find-set_description :
    (g : Generator) (before after : String) (s : Entries)
    → find "required" (set_description g before after s) ≡ find "required" s
unfolding set_description
find-set_description g before after s =
    after_leading (if before == "" then s else leading g (g.trim_space before) s)
    ∙ either-keeps (before == "") s _ refl (
        find-sections g (cut (g.trim_space before) "\n\n") s _ (
          find-sections g (cut (g.trim_space before) "\r\n\r\n") s _
            (find-put_other "required" "description" _ s refl)))
  where
    after_leading :
        (t : Entries)
        → find "required" (if after == "" then t else trailing g (g.trim_space after) t)
          ≡ find "required" t
    after_leading t = either-keeps (after == "") t _ refl (
        either-keeps (text_of (find "description" t) == "") _ _
          (find-put_other "required" "description" _ t refl)
          (find-put_other "required" "description" _ t refl))

find-put_patterns :
    (patterns : Entries) (key : String) (s : Entries)
    → ("patternProperties" == key) ≡ false
    → find key (put_patterns patterns s) ≡ find key s
find-put_patterns empty key s e = refl
find-put_patterns (entry k v rest) key s e = find-put_other key "patternProperties" _ s e

find-put_required :
    (names : List String) (key : String) (s : Entries)
    → ("required" == key) ≡ false
    → find key (put_required names s) ≡ find key s
find-put_required [] key s e = refl
find-put_required (n ∷ ns) key s e = find-put_other key "required" _ s e

find-required :
    (names : List String) (s : Entries)
    → find "required" s ≡ none
    → find "required" (put_required names s) ≡ required_keyword names
find-required [] s e = e
find-required (n ∷ ns) s e =
    ground (arith, find-put "required" "required" (array (text_items (n ∷ ns))) s)

-- what the end of a generation writes, and leaves
pub put_parts-keeps :
    (g : Generator) (schema : Entries) (parts : Parts)
    → find "required" schema ≡ none
    → (find "required" (put_parts g schema parts) ≡ required_keyword parts.required_names)
      × (find "properties" (put_parts g schema parts) ≡ some (object parts.properties))
      × (find "additionalProperties" (put_parts g schema parts)
          ≡ some (flag g.options.additional_properties))
unfolding put_parts
put_parts-keeps g schema parts no_required =
    let s1 = put "properties" (object parts.properties) schema in
    let s2 = put "additionalProperties" (flag g.options.additional_properties) s1 in
    let s3 = put_patterns parts.pattern_properties s2 in
    (
      find-required parts.required_names s3 (
          find-put_patterns parts.pattern_properties "required" s2 refl
          ∙ find-put_other "required" "additionalProperties" _ s1 refl
          ∙ find-put_other "required" "properties" _ schema refl
          ∙ no_required),
      find-put_required parts.required_names "properties" s3 refl
          ∙ find-put_patterns parts.pattern_properties "properties" s2 refl
          ∙ find-put_other "properties" "additionalProperties" _ s1 refl
          ∙ find-put "properties" "properties" (object parts.properties) schema,
      find-put_required parts.required_names "additionalProperties" s3 refl
          ∙ find-put_patterns parts.pattern_properties "additionalProperties" s2 refl
          ∙ find-put "additionalProperties" "additionalProperties" _ s1,
    )
