-- ===== src/Schema/Bundles/Added.antt =====
-- The table of a generator after calls of `Add`.
use Prim.Native.String.{String}
use mathlib.Core.Path.{subst}
use mathlib.Core.List.{Memᴰ}
use grpcmcp.Base.{
  ℕ, ◌≡◌, ◌≢◌, refl, sym, ap, ◌∙◌, ◌⊎◌, inl, inr, Bool, true, false, Option, none, some, List, [],
  ◌∷◌, arith, eq_iff, eq_refl, ◌==◌, lookup, insert, lookup-insert, Bool-cases, if◌then◌else◌,
}
use grpcmcp.Schema.Json.{Entries}
use grpcmcp.Schema.Fields.{Message}
use grpcmcp.Schema.Values.{Generator, Gen, made, failed, panicked, out_of_fuel, ◌>>=◌}
use grpcmcp.Schema.Generate.{get_id, generate}
use grpcmcp.Schema.Bundles.{MsgSchema, Table, add_made, add_or_mark, add}

-- the calls of `Add`, one after the other
abbrev pub add_all : ℕ → Generator → List Message → Table → Gen Table
add_all fuel g [] table = made table
add_all fuel g (m ∷ ms) table = add fuel g table m >>= add_all fuel g ms

made_inj {ℓ} : {A : Type ℓ} {a b : A} → ◌≡◌ {A = Gen A} (made a) (made b) → a ≡ b
made_inj h = cc

module _ (fuel : ℕ) (g : Generator) (messages : List Message) where
  -- the schema of one of the messages, which refers to no other
  pub record IsEntry (name : String) (e : MsgSchema) : Type 0 where
    pub message : Message
    pub given : Memᴰ message messages
    pub named : message.full_name ≡ name
    pub full : e.full_name ≡ name
    pub id_of : e.id ≡ get_id g name false
    pub generated : generate fuel g message ≡ made e.schema
    pub no_refs : e.refs ≡ []
    pub was_added : e.added ≡ true

  abbrev pub AllEntries : Table → Type 0
  AllEntries table = (name : String) (e : MsgSchema) → Memᴰ (name, e) table → IsEntry name e

  in_insert :
      (k : String) (v : MsgSchema) (t : Table) (p : String × MsgSchema)
      → Memᴰ p (insert k v t)
      → (p ≡ (k, v)) ⊎ Memᴰ p t
  unfolding insert
  in_insert k v [] p (Memᴰ.head e) = inl e
  in_insert k v [] p (Memᴰ.tail h) = elim h [ ]
  in_insert k v ((j, w) ∷ t) p h = go (in_insert k v t p) (j == k) h
    where
      go :
          (Memᴰ p (insert k v t) → (p ≡ (k, v)) ⊎ Memᴰ p t)
          → (b : Bool) → Memᴰ p (if b then (k, v) ∷ t else (j, w) ∷ insert k v t)
          → (p ≡ (k, v)) ⊎ Memᴰ p ((j, w) ∷ t)
      go again true (Memᴰ.head e) = inl e
      go again true (Memᴰ.tail later) = inr (Memᴰ.tail later)
      go again false (Memᴰ.head e) = inr (Memᴰ.head e)
      go again false (Memᴰ.tail later) = elim (again later) [
        | inl e ↦ inl e
        | inr old ↦ inr (Memᴰ.tail old)
      ]

  pub lookup-Memᴰ : (k : String) (v : MsgSchema) (t : Table) → lookup k t ≡ some v → Memᴰ (k, v) t
  unfolding lookup
  lookup-Memᴰ k v [] h = absurd cc
  lookup-Memᴰ k v ((j, w) ∷ t) h = elim (Bool-cases (j == k)) [
    | inl same ↦
        let value : Option.some w ≡ some v = ground (arith, h, same) in
        let entry : w ≡ v = cc in
        let name : k ≡ j = ground (arith, same, eq_iff j k) in
        Memᴰ.head (ap (λ x. (x, v)) name ∙ ap (λ x. (j, x)) (sym entry))
    | inr other ↦ Memᴰ.tail (lookup-Memᴰ k v t (ground (arith, h, other)))
  ]

  insert-AllEntries :
      (k : String) (v : MsgSchema) (t : Table)
      → IsEntry k v
      → AllEntries t
      → AllEntries (insert k v t)
  insert-AllEntries k v t h all name e member = elim (in_insert k v t (name, e) member) [
    | inl same ↦ subst (λ p. IsEntry p.0 p.1) (sym same) h
    | inr old ↦ all name e old
  ]

  -- the entry that `Add` makes or marks
  add_made-Entries :
      (m : Message) (t u : Table) (o : Gen Entries)
      → Memᴰ m messages
      → AllEntries t
      → generate fuel g m ≡ o
      → add_made g t m o ≡ made u
      → AllEntries u × (lookup m.full_name u ≢ none)
  add_made-Entries m t u (made schema) given all generates h =
      let entry : MsgSchema = record {
        id = get_id g m.full_name false;
        full_name = m.full_name;
        schema = schema;
        refs = [];
        added = true;
      } in
      let same : insert m.full_name entry t ≡ u = cc in
      (
        subst AllEntries same (
            insert-AllEntries m.full_name entry t
              (record {
                message = m;
                given = given;
                named = refl;
                full = refl;
                id_of = refl;
                generated = generates;
                no_refs = refl;
                was_added = refl;
              })
              all),
        subst (λ x. lookup m.full_name x ≢ none) same
            (λ gone.
              ground
                (arith, gone, lookup-insert m.full_name m.full_name entry t, eq_refl m.full_name)),
      )
  add_made-Entries m t u (failed e) given all generates h = absurd cc
  add_made-Entries m t u panicked given all generates h = absurd cc
  add_made-Entries m t u out_of_fuel given all generates h = absurd cc

  add-Entries :
      (m : Message) (t u : Table)
      → Memᴰ m messages
      → AllEntries t
      → add fuel g t m ≡ made u
      → AllEntries u × (lookup m.full_name u ≢ none)
  unfolding add
  add-Entries m t u given all h = go (lookup m.full_name t) refl h
    where
      go :
          (o : Option MsgSchema)
          → lookup m.full_name t ≡ o
          → add_or_mark fuel g t m o ≡ made u
          → AllEntries u × (lookup m.full_name u ≢ none)
      go none absent k = add_made-Entries m t u (generate fuel g m) given all refl k
      go (some e) there k =
          let old = all m.full_name e (lookup-Memᴰ m.full_name e t there) in
          let marked : MsgSchema = record e { added = true } in
          let same : insert m.full_name marked t ≡ u = cc in
          (
            subst AllEntries same (
                insert-AllEntries m.full_name marked t
                  (record {
                    message = old.message;
                    given = old.given;
                    named = old.named;
                    full = old.full;
                    id_of = old.id_of;
                    generated = old.generated;
                    no_refs = old.no_refs;
                    was_added = refl;
                  })
                  all),
            subst (λ x. lookup m.full_name x ≢ none) same
                (λ gone. ground (
                  arith,
                  gone,
                  lookup-insert m.full_name m.full_name marked t,
                  eq_refl m.full_name,
                )),
          )

  add-keeps :
      (m : Message) (t u : Table) (k : String)
      → lookup k t ≢ none
      → add fuel g t m ≡ made u
      → lookup k u ≢ none
  unfolding add
  add-keeps m t u k there h = go (lookup m.full_name t) h
    where
      put_in : (e : MsgSchema) → insert m.full_name e t ≡ u → lookup k u ≢ none
      put_in e same =
          subst (λ x. lookup k x ≢ none) same
            (λ gone. ground (arith, gone, there, lookup-insert m.full_name k e t))

      made_in : (o : Gen Entries) → add_made g t m o ≡ made u → lookup k u ≢ none
      made_in (made schema) h = let same : insert m.full_name _ t ≡ u = made_inj h in put_in _ same
      made_in (failed e) h = absurd cc
      made_in panicked h = absurd cc
      made_in out_of_fuel h = absurd cc

      go : (o : Option MsgSchema) → add_or_mark fuel g t m o ≡ made u → lookup k u ≢ none
      go none h = made_in (generate fuel g m) h
      go (some e) h = put_in _ (made_inj h)

  pub add_all-Entries :
      (ms : List Message) (t u : Table)
      → ((m : Message) → Memᴰ m ms → Memᴰ m messages)
      → AllEntries t
      → add_all fuel g ms t ≡ made u
      → AllEntries u
        × ((m : Message) → Memᴰ m ms → lookup m.full_name u ≢ none)
        × ((k : String) → lookup k t ≢ none → lookup k u ≢ none)
  add_all-Entries [] t u within all h =
      let same : t ≡ u = made_inj h in
      (
        subst AllEntries same all,
        (λ m member. elim member [ ]),
        (λ k there. subst (λ x. lookup k x ≢ none) same there),
      )
  add_all-Entries (m ∷ ms) t u within all h = go (add fuel g t m) refl h (add_all-Entries ms)
    where
      go :
          (o : Gen Table)
          → add fuel g t m ≡ o
          → (o >>= add_all fuel g ms) ≡ made u
          → ((t' u' : Table)
              → ((n : Message) → Memᴰ n ms → Memᴰ n messages)
              → AllEntries t'
              → add_all fuel g ms t' ≡ made u'
              → AllEntries u'
                × ((n : Message) → Memᴰ n ms → lookup n.full_name u' ≢ none)
                × ((k : String) → lookup k t' ≢ none → lookup k u' ≢ none))
          → AllEntries u
            × ((n : Message) → Memᴰ n (m ∷ ms) → lookup n.full_name u ≢ none)
            × ((k : String) → lookup k t ≢ none → lookup k u ≢ none)
      go (made next) adds rest again =
          let (entries, here) = add-Entries m t next (within m (Memᴰ.head refl)) all adds in
          let (all', later, keeps) =
            again next u (λ n member. within n (Memᴰ.tail member)) entries rest in
          (
            all',
            (λ n member. elim member [
              | Memᴰ.head e ↦
                  subst (λ x. lookup x.full_name u ≢ none) (sym e) (keeps m.full_name here)
              | Memᴰ.tail there ↦ later n there
            ]),
            (λ k there. keeps k (add-keeps m t next k there adds)),
          )
      go (failed e) adds rest again = absurd cc
      go panicked adds rest again = absurd cc
      go out_of_fuel adds rest again = absurd cc
