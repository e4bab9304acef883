-- ===== src/Schema/Bundles/Resolved.antt =====
-- What `Generate` returns for messages that `Add` was called with, where it bundles.
use Prim.Native.String.{String}
use mathlib.Core.Path.{subst}
use mathlib.Core.List.{Memᴰ}
use package.text.Mathlib.TextLemmas.{nil-append, cons-append}
use grpcmcp.Base.{
  ℕ, ◌≡◌, ◌≢◌, refl, sym, ap, ◌∙◌, inl, inr, true, false, none, some, List, [], ◌∷◌, arith, eq_iff,
  eq_refl, lookup, Option-cases, if◌then◌else◌,
}
use grpcmcp.Base.Texts.{◌⧺◌, has_prefix, drop_prefix}
use grpcmcp.Schema.Json.{text, object, Entries, empty, find, put, find-put}
use grpcmcp.Schema.Fields.{Message}
use grpcmcp.Schema.Values.{Generator, made}
use grpcmcp.Schema.Generate.{get_id, generate}
use grpcmcp.Schema.Bundles.Added.{add_all, IsEntry, AllEntries, add_all-Entries, lookup-Memᴰ}
use grpcmcp.Schema.Bundles.{
  MsgSchema, Table, def_id, each, with_def, bundle_schema, bundles, schemas, generate_all,
}

has_prefix-append : (p s : String) → has_prefix (p ⧺ s) p ≡ true
has_prefix-append String.[] s = refl
has_prefix-append (String.◌∷◌ c p) s = rw cons-append (ground (arith, has_prefix-append p s))

drop_prefix-append : (p s : String) → drop_prefix (p ⧺ s) p ≡ s
drop_prefix-append String.[] s = nil-append s
drop_prefix-append (String.◌∷◌ c p) s = rw cons-append (drop_prefix-append p s)

module _ (fuel : ℕ) (g : Generator) (messages : List Message) where
  -- The bundle refers to one definition, which it has, and which is the schema of the message of the
  -- name; it has no other.
  pub record IsBundle (name : String) (s : Entries) : Type 0 where
    pub message : Message
    pub given : Memᴰ message messages
    pub named : message.full_name ≡ name
    pub schema : Entries
    pub generated : generate fuel g message ≡ made schema
    pub key : String
    pub defs : Entries
    pub refers : find "$ref" s ≡ some (text ("#/$defs/" ⧺ key))
    pub has_defs : find "$defs" s ≡ some (object defs)
    pub resolves : find key defs ≡ some (object schema)
    pub alone : (k : String) → k ≢ key → find k defs ≡ none

  key_of : String → String
  key_of name =
      name
      ⧺ (if g.options.use_json_names then ".jsonschema" else ".schema")
      ⧺ (if g.options.strict then ".strict" else "")
      ⧺ ""
      ⧺ ".json"

  get_id-prefix :
      (name : String) → g.options.bundle ≡ true → get_id g name false ≡ "#/$defs/" ⧺ key_of name
  unfolding get_id key_of
  get_id-prefix name on = rw on refl

  def_id-key :
      (name : String) (e : MsgSchema)
      → g.options.bundle ≡ true
      → e.id ≡ get_id g name false
      → def_id e ≡ key_of name
  def_id-key name e on id_of =
      ap (λ i. if has_prefix i "#/$defs/" then drop_prefix i "#/$defs/" else i)
        (id_of ∙ get_id-prefix name on)
      ∙ ap
          (λ b.
            if b
            then drop_prefix ("#/$defs/" ⧺ key_of name) "#/$defs/"
            else "#/$defs/" ⧺ key_of name)
          (has_prefix-append "#/$defs/" (key_of name))
      ∙ drop_prefix-append "#/$defs/" (key_of name)

  entry-IsBundle :
      (table : Table) (name : String) (e : MsgSchema)
      → g.options.bundle ≡ true
      → IsEntry fuel g messages name e
      → (s : Entries) × (bundle_schema g table e ≡ some s) × IsBundle name s
  unfolding bundle_schema each find
  entry-IsBundle table name e on h =
      let defs = with_def e empty in
      let key = def_id-key name e on h.id_of in
      let s = put "$defs" (object defs) (
        put "$ref" (text (get_id g e.full_name false)) (
          put "$id" (text (get_id g e.full_name true))
            (put "$schema" (text "https://json-schema.org/draft/2020-12/schema") empty))) in
      (
        s,
        rw h.no_refs refl,
        record {
          message = h.message;
          given = h.given;
          named = h.named;
          schema = e.schema;
          generated = h.generated;
          key = key_of name;
          defs = defs;
          refers =
              find-put "$defs" "$ref" (object defs) _
              ∙ find-put "$ref" "$ref" (text (get_id g e.full_name false)) _
              ∙ ap (λ n. some (text (get_id g n false))) h.full
              ∙ ap (λ i. some (text i)) (get_id-prefix name on);
          has_defs = find-put "$defs" "$defs" (object defs) _;
          resolves =
              find-put (def_id e) (key_of name) (object e.schema) empty
              ∙ ground (arith, key, eq_refl (key_of name));
          alone = λ k other.
              find-put (def_id e) k (object e.schema) empty
              ∙ ground (arith, key, eq_iff (key_of name) k, other);
        },
      )

  -- the bundles of a part of the table
  bundles-AllBundles :
      (table part : Table)
      → g.options.bundle ≡ true
      → AllEntries fuel g messages part
      → (out : List (String × Entries)) × (bundles g table part ≡ some out)
        × ((name : String) (s : Entries) → Memᴰ (name, s) out → IsBundle name s)
        × ((name : String) (e : MsgSchema)
            → Memᴰ (name, e) part
            → (s : Entries) × Memᴰ (name, s) out)
  unfolding bundles
  bundles-AllBundles table [] on all =
      ([], refl, (λ name s member. elim member [ ]), (λ name e member. elim member [ ]))
  bundles-AllBundles table ((name, e) ∷ rest) on all =
      let h = all name e (Memᴰ.head refl) in
      let (s, bundled, is_bundle) = entry-IsBundle table name e on h in
      let (out, later, each_is, each_in) =
        bundles-AllBundles table rest on (λ n x member. all n x (Memᴰ.tail member)) in
      (
        (name, s) ∷ out,
        rw h.was_added (rw bundled (rw later refl)),
        (λ n t member. elim member [
          | Memᴰ.head same ↦ subst (λ p. IsBundle p.0 p.1) (sym same) is_bundle
          | Memᴰ.tail there ↦ each_is n t there
        ]),
        (λ n x member. elim member [
          | Memᴰ.head same ↦ (s, Memᴰ.head (ap (λ p. (p.0, s)) same))
          | Memᴰ.tail there ↦ let (t, found) = each_in n x there in (t, Memᴰ.tail found)
        ]),
      )

  -- If `Add` succeeds on each of the messages, in a generator that bundles and is new, then `Generate`
  -- returns a bundle for each of them, and bundles of them alone: the reference of a bundle names a
  -- definition that it has, which is the schema generated for the message, and it has no other.
  pub generate_all-IsBundle :
      (table : Table)
      → g.options.bundle ≡ true
      → add_all fuel g messages [] ≡ made table
      → (out : List (String × Entries)) × (generate_all g table ≡ some out)
        × ((name : String) (s : Entries) → Memᴰ (name, s) out → IsBundle name s)
        × ((m : Message) → Memᴰ m messages → (s : Entries) × Memᴰ (m.full_name, s) out)
  unfolding generate_all
  generate_all-IsBundle table on adds =
      let (all, there, _) =
        add_all-Entries fuel g messages messages [] table (λ m h. h) (λ n e h. elim h [ ]) adds in
      let (out, made_all, each_is, each_in) = bundles-AllBundles table table on all in
      (
        out,
        ap (λ b. if b then bundles g table table else some (schemas table)) on ∙ made_all,
        each_is,
        λ m member. elim (Option-cases (lookup m.full_name table)) [
          | inl gone ↦ absurd (there m member gone)
          | inr (e, found) ↦
              each_in m.full_name e (lookup-Memᴰ fuel g messages m.full_name e table found)
        ],
      )
