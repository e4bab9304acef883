-- ===== src/Options.antt =====
-- main.go: the method options, read from their wire format (`skipNextField`, `methodOptionFields`,
-- `hasMethodOption`, `getMethodOptionString`). A byte is a number; the protowire package is the
-- interface `Wire`, and the encoded options are an argument.
pub mod Fields
pub mod Examples
use Prim.Native.String.{String}
use grpcmcp.Base.{
  ℕ, zero, suc, ◌-◌, Bool, true, false, ◌&&◌, ◌||◌, Option, none, some, List, [], ◌∷◌, length, eqb,
  if◌then◌else◌,
}

-- number, wire type and size of the tag at the start of the bytes (`ConsumeTag`); the size of a value
-- (`ConsumeFieldValue`); the values of a varint and of a length-delimited field; `none` is a negative
-- size
pub record Wire : Type 0 where
  pub consume_tag : List ℕ → Option (ℕ × ℕ × ℕ)
  pub consume_field_value : ℕ → ℕ → List ℕ → Option ℕ
  pub consume_varint : List ℕ → ℕ
  pub consume_bytes : List ℕ → List ℕ
  -- `string(value)` of valid UTF-8
  pub utf8 : List ℕ → Option String

-- `b[n:]` and `b[:n]`
unfoldable pub drop : ℕ → List ℕ → List ℕ
drop zero b = b
drop (suc n) [] = []
drop (suc n) (x ∷ b) = drop n b

unfoldable pub take : ℕ → List ℕ → List ℕ
take zero b = []
take (suc n) [] = []
take (suc n) (x ∷ b) = x ∷ take n b

pub record MethodOptionField : Type 0 where
  pub number : ℕ
  pub wire_type : ℕ
  pub value : List ℕ

module _ (wire : Wire) where
  -- the rest, or the parse error
  unfoldable pub skip_next_field : List ℕ → ℕ → ℕ → Option (List ℕ)
  unfolding drop
  skip_next_field b number wire_type = elim (wire.consume_field_value number wire_type b) [
    | none ↦ none
    | some n ↦ some (drop n b)
  ]

  -- The fields in wire order, up to malformed data. The fuel counts the rounds of the loop; each takes
  -- a tag from the bytes, so that their number is enough.
  unfoldable pub method_option_fields : ℕ → List ℕ → List MethodOptionField
  unfolding skip_next_field drop take
  method_option_fields zero b = []
  method_option_fields (suc fuel) [] = []
  method_option_fields (suc fuel) (x ∷ xs) = elim (wire.consume_tag (x ∷ xs)) [
    | none ↦ []
    | some (number, wire_type, start_of_value) ↦
        let b = drop start_of_value (x ∷ xs) in
        elim (skip_next_field b number wire_type) [
          | none ↦ []
          | some rest ↦
              record {
                number = number;
                wire_type = wire_type;
                value = take (length b - length rest) b;
              }
              ∷ method_option_fields fuel rest
        ]
  ]

  abbrev is_member : ℕ → List ℕ → Bool
  is_member n [] = false
  is_member n (m ∷ ms) = eqb n m || is_member n ms

  -- `protowire.VarintType` is 0, `protowire.BytesType` is 2
  unfoldable pub first_varint : List MethodOptionField → ℕ → List ℕ → Bool
  first_varint [] field_num expected = false
  first_varint (f ∷ fs) field_num expected =
      let later = first_varint fs field_num expected in
      if eqb f.number field_num && eqb f.wire_type 0
      then is_member (wire.consume_varint f.value) expected
      else later

  -- the text of a length-delimited value, empty if it is no valid UTF-8
  abbrev pub text_value : List ℕ → String
  text_value value = elim (wire.utf8 (wire.consume_bytes value)) [ none ↦ "" | some s ↦ s ]

  unfoldable pub first_string : List MethodOptionField → ℕ → String
  first_string [] field_num = ""
  first_string (f ∷ fs) field_num =
      let later = first_string fs field_num in
      if eqb f.number field_num && eqb f.wire_type 2 then text_value f.value else later

  -- the options that `proto.Marshal` gives, `none` where there are none or it fails
  unfoldable pub has_method_option : Option (List ℕ) → ℕ → List ℕ → Bool
  unfolding method_option_fields first_varint
  has_method_option none field_num expected = false
  has_method_option (some b) field_num expected =
      first_varint (method_option_fields (length b) b) field_num expected

  unfoldable pub get_method_option_string : Option (List ℕ) → ℕ → String
  unfolding method_option_fields first_string
  get_method_option_string none field_num = ""
  get_method_option_string (some b) field_num =
      first_string (method_option_fields (length b) b) field_num
