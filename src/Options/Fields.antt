-- ===== src/Options/Fields.antt =====
-- Well-formed encodings of options, and what the loop over them yields.
use mathlib.Core.List.{map-append}
use grpcmcp.Base.{
  ℕ, zero, suc, ◌+◌, ◌-◌, ◌≤◌, ◌<◌, ◌≡◌, refl, ap, ◌∙◌, false, ◌&&◌, none, some, List, [], ◌∷◌,
  ◌++◌, map, length, All, arith, eqb,
}
use grpcmcp.Options.{
  Wire, drop, take, MethodOptionField, skip_next_field, method_option_fields, text_value,
  first_string, get_method_option_string,
}

-- a tag and the field behind it
pub record Encoded : Type 0 where
  pub tag : List ℕ
  pub field : MethodOptionField

-- protowire reads them back, whatever follows
pub record IsEncoded (wire : Wire) (e : Encoded) : Type 0 where
  pub has_tag : 0 < length e.tag
  pub reads_tag :
      (rest : List ℕ)
      → wire.consume_tag (e.tag ++ rest) ≡ some (e.field.number, e.field.wire_type, length e.tag)
  pub reads_value :
      (rest : List ℕ)
      → wire.consume_field_value e.field.number e.field.wire_type (e.field.value ++ rest)
        ≡ some (length e.field.value)

abbrev pub field_of : Encoded → MethodOptionField
field_of e = e.field

-- the bytes of the fields, and then a tail
abbrev pub encode : List Encoded → List ℕ → List ℕ
encode [] tail = tail
encode (e ∷ es) tail = e.tag ++ (e.field.value ++ encode es tail)

-- no bytes, or a malformed tag
abbrev pub IsTail : Wire → List ℕ → Type 0
IsTail wire [] = Unit
IsTail wire (x ∷ xs) = wire.consume_tag (x ∷ xs) ≡ none

drop-append : (xs ys : List ℕ) → drop (length xs) (xs ++ ys) ≡ ys
unfolding drop
drop-append [] ys = refl
drop-append (x ∷ xs) ys = drop-append xs ys

take-append : (xs ys : List ℕ) → take (length xs) (xs ++ ys) ≡ xs
unfolding take
take-append [] ys = refl
take-append (x ∷ xs) ys = ap (λ l. x ∷ l) (take-append xs ys)

length-append : (xs ys : List ℕ) → length (xs ++ ys) ≡ length xs + length ys
length-append [] ys = omega arith
length-append (x ∷ xs) ys = ground (arith, length-append xs ys)

module _ (wire : Wire) where
  tail-fields :
      (fuel : ℕ) (tail : List ℕ) → IsTail wire tail → method_option_fields wire fuel tail ≡ []
  unfolding method_option_fields
  tail-fields zero tail h = refl
  tail-fields (suc fuel) [] h = refl
  tail-fields (suc fuel) (x ∷ xs) h = ground (arith, h)

  -- one round, on bytes that are not empty
  round :
      (fuel : ℕ) (b behind rest v : List ℕ) (number wire_type start size : ℕ)
      → 0 < length b
      → wire.consume_tag b ≡ some (number, wire_type, start)
      → drop start b ≡ behind
      → wire.consume_field_value number wire_type behind ≡ some size
      → drop size behind ≡ rest
      → take (length behind - length rest) behind ≡ v
      → method_option_fields wire (suc fuel) b
        ≡ record { number = number; wire_type = wire_type; value = v }
          ∷ method_option_fields wire fuel rest
  unfolding method_option_fields skip_next_field
  round fuel [] behind rest v number wire_type start size long tag at value over taken =
      absurd (omega arith)
  round fuel (x ∷ xs) behind rest v number wire_type start size long tag at value over taken =
      ground (arith, tag, at, value, over, taken)

  -- The loop reads an encoding of fields back, up to its end or to a malformed tag behind them, with
  -- as much fuel as there are bytes.
  pub method_option_fields-encode :
      (es : List Encoded) (tail : List ℕ) (fuel : ℕ)
      → All (IsEncoded wire) es
      → IsTail wire tail
      → length (encode es tail) ≤ fuel
      → method_option_fields wire fuel (encode es tail) ≡ map field_of es
  method_option_fields-encode [] tail fuel h t enough = tail-fields fuel tail t
  method_option_fields-encode (e ∷ es) tail zero (h, hs) t enough =
      absurd (ground (arith, h.has_tag, length-append e.tag (e.field.value ++ encode es tail)))
  method_option_fields-encode (e ∷ es) tail (suc fuel) (h, hs) t enough =
      let rest = encode es tail in
      let v = e.field.value in
      let all = length-append e.tag (v ++ rest) in
      let behind = length-append v rest in
      round fuel (e.tag ++ (v ++ rest)) (v ++ rest) rest v e.field.number e.field.wire_type
        (length e.tag) (length v) (ground (arith, all, h.has_tag)) (h.reads_tag (v ++ rest))
        (drop-append e.tag (v ++ rest)) (h.reads_value rest) (drop-append v rest)
        (ap (λ n. take n (v ++ rest)) (omega arith) ∙ take-append v rest)
      ∙ ap (λ l. e.field ∷ l)
          (method_option_fields-encode es tail fuel hs t (ground (arith, all, behind, h.has_tag)))

-- no field decides: of this number, and of the wire type of a text
abbrev IsOther : ℕ → Encoded → Type 0
IsOther n e = (eqb e.field.number n && eqb e.field.wire_type 2) ≡ false

module _ (wire : Wire) where
  first_string-append :
      (n : ℕ) (before : List Encoded) (f : MethodOptionField) (after : List MethodOptionField)
      → All (IsOther n) before
      → f.number ≡ n
      → f.wire_type ≡ 2
      → first_string wire (map field_of before ++ f ∷ after) n ≡ text_value wire f.value
  unfolding first_string
  first_string-append n [] f after h number type = ground (arith, number, type)
  first_string-append n (e ∷ before) f after (h, hs) number type =
      ground (arith, h, first_string-append n before f after hs number type)

  -- A text option is the text of the first field of its number that is length-delimited, whatever
  -- stands behind that field.
  pub get_method_option_string-first :
      (n : ℕ) (before : List Encoded) (e : Encoded) (after : List Encoded) (tail : List ℕ)
      → All (IsEncoded wire) (before ++ e ∷ after)
      → IsTail wire tail
      → All (IsOther n) before
      → e.field.number ≡ n
      → e.field.wire_type ≡ 2
      → get_method_option_string wire (some (encode (before ++ e ∷ after) tail)) n
        ≡ text_value wire e.field.value
  unfolding get_method_option_string
  get_method_option_string-first n before e after tail encoded ends others number type =
      let b = encode (before ++ e ∷ after) tail in
      ap (λ fs. first_string wire fs n)
        (method_option_fields-encode wire (before ++ e ∷ after) tail (length b) encoded ends
            (omega arith)
          ∙ map-append field_of before (e ∷ after))
      ∙ first_string-append n before e.field (map field_of after) others number type
