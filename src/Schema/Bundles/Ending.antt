-- ===== src/Schema/Bundles/Ending.antt =====
-- The fuel that a bundle is given is enough, whatever the references are.
use Prim.Native.String.{String}
use grpcmcp.Base.{
  ℕ, zero, suc, ◌+◌, ◌≤◌, ◌<◌, ◌≡◌, refl, ap, ◌∙◌, inl, inr, Bool-cases, Option-cases, is_some,
  false, Option, none, some, List, [], ◌∷◌, lookup, length, arith, ◌==◌, eq_refl, if◌then◌else◌,
}
use grpcmcp.Schema.Json.{Json, object, Entries, empty, find, put, find-put}
use grpcmcp.Schema.Bundles.{MsgSchema, Table, def_id, each, with_def, add_entry, bundle_references}

-- the messages of the table whose definition is not there yet
abbrev absent : MsgSchema → Entries → ℕ
absent e defs = if is_some (find (def_id e) defs) then 0 else 1

missing : Table → Entries → ℕ
missing [] defs = 0
missing ((name, e) ∷ rest) defs = absent e defs + missing rest defs

missing-length : (t : Table) (defs : Entries) → missing t defs ≤ length t
unfolding missing
missing-length [] defs = omega arith
missing-length ((name, e) ∷ rest) defs = ground (arith, missing-length rest defs)

absent-put :
    (e : MsgSchema) (key : String) (v : Json) (defs : Entries)
    → absent e (put key v defs) ≤ absent e defs
absent-put e key v defs = ground (arith, find-put key (def_id e) v defs)

missing-put :
    (t : Table) (key : String) (v : Json) (defs : Entries)
    → missing t (put key v defs) ≤ missing t defs
unfolding missing
missing-put [] key v defs = omega arith
missing-put ((name, e) ∷ rest) key v defs =
    omega (arith, absent-put e key v defs, missing-put rest key v defs)

abbrev entry_or : MsgSchema → Option MsgSchema → MsgSchema
entry_or old none = old
entry_or old (some e) = e

-- a definition that was not there is one less that is missing
missing-with_def :
    (t : Table) (name : String) (e : MsgSchema) (v : Json) (defs : Entries)
    → lookup name t ≡ some e
    → is_some (find (def_id e) defs) ≡ false
    → missing t (put (def_id e) v defs) < missing t defs
unfolding missing lookup
missing-with_def [] name e v defs found new = ground arith
missing-with_def ((key, f) ∷ rest) name e v defs found new = elim (Bool-cases (key == name)) [
  | inl same ↦
      let same_entry : Option.some f ≡ some e = ground (arith, same, found) in
      let it_is : f ≡ e = ap (entry_or f) same_entry in
      let now : absent f (put (def_id e) v defs) ≡ 0 =
        ap (λ x. absent x (put (def_id e) v defs)) it_is
        ∙ ground (arith, find-put (def_id e) (def_id e) v defs, eq_refl (def_id e)) in
      let before : absent f defs ≡ 1 = ap (λ x. absent x defs) it_is ∙ ground (arith, new) in
      omega (arith, missing-put rest (def_id e) v defs)
  | inr other ↦
      let found_later : lookup name rest ≡ some e = ground (arith, other, found) in
      omega
        (arith, absent-put f (def_id e) v defs, missing-with_def rest name e v defs found_later new)
]

abbrev Ends : Table → Entries → Option Entries → Type 0
Ends t defs r = (more : Entries) × (r ≡ some more) × (missing t more ≤ missing t defs)

each-Ends :
    (t : Table) (next : String → Entries → Option Entries) (bound : ℕ)
    → ((ref : String) (defs : Entries) → missing t defs ≤ bound → Ends t defs (next ref defs))
    → (refs : List String) (defs : Entries) → missing t defs ≤ bound
    → Ends t defs (each next refs defs)
unfolding each
each-Ends t next bound ends [] defs h = (defs, refl, omega arith)
each-Ends t next bound ends (ref ∷ refs) defs h =
    let (more, first, fewer) = ends ref defs h in
    let (last, rest, fewest) = each-Ends t next bound ends refs more (omega arith) in
    (last, ground (arith, first, rest), omega arith)

bundle_references-Ends :
    (k : ℕ) (t : Table) (name : String) (defs : Entries)
    → missing t defs < k
    → Ends t defs (bundle_references k t name defs)
unfolding bundle_references
bundle_references-Ends zero t name defs h = absurd (omega arith)
bundle_references-Ends (suc k) t name defs h =
    let next : String → Entries → Option Entries = λ ref ds. bundle_references k t ref ds in
    elim (Option-cases (lookup name t)) [
      | inl gone ↦ (defs, ap (λ o. add_entry next o defs) gone, omega arith)
      | inr (e, found) ↦ elim (Bool-cases (is_some (find (def_id e) defs))) [
        | inl there ↦
            let entered : add_entry next (some e) defs ≡ some defs = ground (arith, there) in
            (defs, ap (λ o. add_entry next o defs) found ∙ entered, omega arith)
        | inr new ↦
            let fewer = missing-with_def t name e (object e.schema) defs found new in
            let (more, done, fewest) =
              each-Ends t next (missing t (with_def e defs))
                (λ ref ds below. bundle_references-Ends k t ref ds (omega arith)) e.refs
                (with_def e defs) (omega arith) in
            let entered : add_entry next (some e) defs ≡ some more = ground (arith, new, done) in
            (more, ap (λ o. add_entry next o defs) found ∙ entered, omega arith)
      ]
    ]

-- the loop of a bundle ends, whichever messages refer to each other, also in a cycle and to messages
-- that the table does not hold
pub each_refs-ends :
    (t : Table) (e : MsgSchema)
    → (defs : Entries) × (each
          (λ ref ds. bundle_references (suc (length t)) t ref ds)
          e.refs
          (with_def e empty)
        ≡ some defs)
each_refs-ends t e =
    let (defs, done, fewer) =
      each-Ends t (λ ref ds. bundle_references (suc (length t)) t ref ds) (length t)
        (λ ref ds below. bundle_references-Ends (suc (length t)) t ref ds (omega arith)) e.refs
        (with_def e empty) (missing-length t (with_def e empty)) in
    (defs, done)
