-- ===== src/Schema/Messages/Ending.antt =====
-- Messages whose nesting ends: a rank falls from each message to those that its fields nest.
use grpcmcp.Base.{ℕ, zero, suc, ◌<◌, ◌≡◌, refl, sym, ap, ◌∙◌, String, arith}
use grpcmcp.Schema.Json.{Entries}
use grpcmcp.Schema.Values.{Generator, Gen, made, ◌>>=◌, Nested}
use grpcmcp.Schema.Messages.{with_field, generate_message, no_parts}
use grpcmcp.Schema.Messages.Targets.{AllUsable, AllUsable-weaken}
use grpcmcp.Schema.Messages.Related.{IsKept, Agree, add_fields-related}

-- both give the same schema
abbrev Both {ℓ} : {A : Type ℓ} → Gen A → Gen A → Type ℓ
Both {A = A} x y = (a : A) × (x ≡ made a) × (y ≡ made a)

Both-bind {ℓ κ} :
    {A : Type ℓ} {B : Type κ} {x y : Gen A} (f h : A → Gen B)
    → Both x y
    → ((a : A) → Both (f a) (h a))
    → Both (x >>= f) (y >>= h)
Both-bind f h (a, p, q) rest =
    let (b, u, v) = rest a in (b, ap (λ c. c >>= f) p ∙ u, ap (λ c. c >>= h) q ∙ v)

Both-IsKept : IsKept (λ A. Both)
Both-IsKept = record {
  of_made = λ a. (a, refl, refl);
  of_bind = λ f h. Both-bind f h;
  of_with_field = λ field (a, p, q). (a, ap (with_field field) p, ap (with_field field) q);
}

-- Of the messages with the property, each nests only such messages, of a lower rank.
abbrev pub Ranked : Generator → (String → Type 0) → (String → ℕ) → Type 0
Ranked g P rank =
    (name : String)
    → P name
    → AllUsable g (λ t. P t × (rank t < rank name)) (g.messages name).fields

module _ (g : Generator) (P : String → Type 0) (rank : String → ℕ) (ranked : Ranked g P rank) where
  generate_message-Both :
      (k l : ℕ) (name : String) (schema : Entries)
      → P name
      → rank name < k
      → rank name < l
      → Both
          (generate_message k g (g.messages name) schema)
          (generate_message l g (g.messages name) schema)
  unfolding generate_message
  generate_message-Both zero l name schema has below_k below_l = absurd (omega arith)
  generate_message-Both (suc k) zero name schema has below_k below_l = absurd (omega arith)
  generate_message-Both (suc k) (suc l) name schema has below_k below_l =
      let m : Nested = λ t s. generate_message k g (g.messages t) s in
      let n : Nested = λ t s. generate_message l g (g.messages t) s in
      Both-bind _ _
        (add_fields-related g m n (λ A. Both) Both-IsKept (g.messages name).fields no_parts
          (AllUsable-weaken g (λ t. P t × (rank t < rank name))
            (Agree g m n (λ A. Both) Both-IsKept)
            (λ t (in_set, falls) s.
              generate_message-Both k l t s in_set (omega arith) (omega arith))
            (g.messages name).fields (ranked name has)))
        (λ parts. (_, refl, refl))

  -- A message is given a schema, the same one with any fuel above its rank: if it is one of a set of
  -- messages whose fields, less those that are ignored, have rules that resolve and nest only
  -- messages of the set, each of a lower rank than the message that it stands in.
  pub generate_message-ends :
      (name : String) (schema : Entries)
      → P name
      → (result : Entries) × ((fuel : ℕ)
          → rank name < fuel
          → generate_message fuel g (g.messages name) schema ≡ made result)
  generate_message-ends name schema has =
      let (result, made_at_rank, _) =
        generate_message-Both (suc (rank name)) (suc (rank name)) name schema has (omega arith)
          (omega arith) in
      (
        result,
        λ fuel enough.
            let (a, at_rank, at_fuel) =
              generate_message-Both (suc (rank name)) fuel name schema has (omega arith) enough in
            at_fuel ∙ sym at_rank ∙ made_at_rank,
      )
