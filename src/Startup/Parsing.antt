-- ===== src/Startup/Parsing.antt =====
-- The texts of -require-method-option and -services, read back.
use Prim.Native.Char.{code}
use Prim.Native.String.{[], ◌∷◌}
use text.Mathlib.TextLemmas.{nil-append, cons-append, append-eq-nil_iff}
use grpcmcp.Base.{
  ℕ, String, ◌≡◌, ◌≢◌, refl, ◌∙◌, ap, false, List, All, map, arith, eqb, eq_iff, Bool-cases, inl,
  inr,
}
use grpcmcp.Base.Texts.{◌⧺◌}
use grpcmcp.Base.Results.{Result, ok}
use grpcmcp.Forward.Flags.{NoColon, cut_colon-append}
use grpcmcp.Startup.{
  is_empty, split_commas, parse_values, parse_parts, parse_method_option, named_services,
  parse_services,
}

abbrev pub NoComma : String → Type 0
NoComma [] = Unit
NoComma (c ∷ s) = (eqb (code c) b',' ≡ false) × NoComma s

-- the values with commas between them
unfoldable pub with_commas : String → List String → String
with_commas v List.[] = v
with_commas v (List.◌∷◌ w ws) = v ⧺ "," ⧺ with_commas w ws

split_commas-one : (v : String) → NoComma v → split_commas v ≡ List.◌∷◌ v List.[]
unfolding split_commas
split_commas-one [] h = refl
split_commas-one (c ∷ v) (h, hs) = rw h (rw (split_commas-one v hs))

abbrev comma : String
comma = ","

split_commas-append :
    (v s : String) → NoComma v → split_commas (v ⧺ comma ⧺ s) ≡ List.◌∷◌ v (split_commas s)
unfolding split_commas
split_commas-append [] s h = rw nil-append (rw cons-append (rw nil-append))
split_commas-append (c ∷ v) s (h, hs) = rw cons-append (rw h (rw (split_commas-append v s hs)))

split_commas-with_commas :
    (v : String) (ws : List String)
    → NoComma v
    → All NoComma ws
    → split_commas (with_commas v ws) ≡ List.◌∷◌ v ws
unfolding with_commas
split_commas-with_commas v List.[] h hs = split_commas-one v h
split_commas-with_commas v (List.◌∷◌ w ws) h (k, ks) =
    split_commas-append v (with_commas w ws) h
    ∙ ap (λ l. List.◌∷◌ v l) (split_commas-with_commas w ws k ks)

text_non_empty : (a b : String) → is_empty (a ⧺ ":" ⧺ b) ≡ false
text_non_empty a b = ground (arith, eq_iff (a ⧺ ":" ⧺ b) "", non_empty)
  where
    colon_non_empty : ◌≢◌ {A = String} ":" ""
    colon_non_empty = ground (arith, eq_iff ":" "")

    non_empty : a ⧺ ":" ⧺ b ≢ ""
    non_empty h = colon_non_empty (append-eq-nil_iff.0 (append-eq-nil_iff.0 h).1).0

module _ (parse_uint : ℕ → String → Result String ℕ) where
  -- each text parses to the number beside it
  abbrev pub Reads : List (String × ℕ) → Type 0
  Reads vs = All (λ v. NoComma v.0 × (parse_uint 64 v.0 ≡ ok v.1)) vs

  abbrev pub texts : List (String × ℕ) → List String
  texts vs = map (λ v. v.0) vs

  abbrev pub numbers : List (String × ℕ) → List ℕ
  numbers vs = map (λ v. v.1) vs

  parse_values-Reads :
      (vs : List (String × ℕ)) → Reads vs → parse_values parse_uint (texts vs) ≡ ok (numbers vs)
  unfolding parse_values
  parse_values-Reads List.[] h = refl
  parse_values-Reads (List.◌∷◌ v vs) ((_, k), h) = rw k (rw (parse_values-Reads vs h))

  NoComma-texts : (vs : List (String × ℕ)) → Reads vs → All NoComma (texts vs)
  NoComma-texts List.[] h = tt
  NoComma-texts (List.◌∷◌ v vs) ((k, _), h) = (k, NoComma-texts vs h)

  -- A field number, a colon and values with commas between them are read as that number and those
  -- values, if each of the texts is one of a number and has no colon or comma that would part it.
  pub parse_method_option-text :
      (field : String) (n : ℕ) (v : String × ℕ) (vs : List (String × ℕ))
      → NoColon field
      → parse_uint 32 field ≡ ok n
      → Reads (List.◌∷◌ v vs)
      → parse_method_option parse_uint (field ⧺ ":" ⧺ with_commas v.0 (texts vs))
        ≡ ok (n, numbers (List.◌∷◌ v vs))
  unfolding parse_method_option
  parse_method_option-text field n v vs h k (here, rest) =
      rw (text_non_empty field (with_commas v.0 (texts vs))) (
        rw (cut_colon-append field (with_commas v.0 (texts vs)) h) (
          rw (k, parse_parts)
            (rw (split_commas-with_commas v.0 (texts vs) here.0 (NoComma-texts vs rest))
              (rw (parse_values-Reads (List.◌∷◌ v vs) (here, rest))))))

named_services-All :
    (trim_space : String → String) (ss : List String)
    → All (λ s. s ≢ "") (named_services trim_space ss)
unfolding named_services
named_services-All trim_space List.[] = tt
named_services-All trim_space (List.◌∷◌ s ss) = elim (Bool-cases (is_empty (trim_space s))) [
  | inl blank ↦ rw blank (named_services-All trim_space ss)
  | inr full ↦ rw full (ground (arith, eq_iff (trim_space s) ""), named_services-All trim_space ss)
]

-- No service that is asked for has an empty name.
pub parse_services-All :
    (trim_space : String → String) (services : String)
    → All (λ s. s ≢ "") (parse_services trim_space services)
unfolding parse_services
parse_services-All trim_space services = elim (Bool-cases (is_empty services)) [
  | inl none_given ↦ rw none_given tt
  | inr given ↦ rw given (named_services-All trim_space (split_commas services))
]
