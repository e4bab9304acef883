-- ===== src/Options/Examples.antt =====
-- Options of one-byte tags and lengths.
use Prim.Native.String.{String}
use grpcmcp.Base.{
  ℕ, zero, suc, ◌+◌, ◌/◌, ◌%◌, ◌≡◌, refl, Bool, true, false, ◌&&◌, Option, none, some, List, [],
  ◌∷◌, map, arith, eqb, if◌then◌else◌,
}
use grpcmcp.Options.{Wire, method_option_fields, has_method_option}
use grpcmcp.Options.Fields.{Encoded, IsEncoded, encode, field_of, method_option_fields-encode}

abbrev small_tag : List ℕ → Option (ℕ × ℕ × ℕ)
small_tag [] = none
small_tag (b ∷ rest) = if eqb (b / 8) 0 then none else some (b / 8, b % 8, 1)

abbrev holds : ℕ → List ℕ → Bool
holds zero b = true
holds (suc n) [] = false
holds (suc n) (x ∷ b) = holds n b

abbrev small_value : ℕ → ℕ → List ℕ → Option ℕ
small_value number type [] = none
small_value number type (b ∷ rest) =
    if eqb type 0 then some 1 else if holds b rest then some (1 + b) else none

abbrev first_byte : List ℕ → ℕ
first_byte [] = 0
first_byte (b ∷ rest) = b

abbrev behind : List ℕ → List ℕ
behind [] = []
behind (b ∷ rest) = rest

abbrev small_utf8 : List ℕ → Option String
small_utf8 (a ∷ b ∷ []) = if eqb a 111 && eqb b 107 then some "ok" else none
small_utf8 _ = none

abbrev pub small_wire : Wire
small_wire = record {
  consume_tag = small_tag;
  consume_field_value = small_value;
  consume_varint = first_byte;
  consume_bytes = behind;
  utf8 = small_utf8;
}

-- field 1, the varint 5, and field 2, the text "ok"
abbrev five : Encoded
five = record { tag = 8 ∷ []; field = record { number = 1; wire_type = 0; value = 5 ∷ [] } }

abbrev okay : Encoded
okay = record {
  tag = 18 ∷ [];
  field = record { number = 2; wire_type = 2; value = 2 ∷ 111 ∷ 107 ∷ [] };
}

five-IsEncoded : IsEncoded small_wire five
five-IsEncoded = record {
  has_tag = omega arith;
  reads_tag = λ rest. refl;
  reads_value = λ rest. refl;
}

okay-IsEncoded : IsEncoded small_wire okay
okay-IsEncoded = record {
  has_tag = omega arith;
  reads_tag = λ rest. refl;
  reads_value = λ rest. refl;
}

method_option_fields-encode_example :
    method_option_fields small_wire 10 (encode (five ∷ okay ∷ []) (0 ∷ []))
    ≡ map field_of (five ∷ okay ∷ [])
method_option_fields-encode_example =
    method_option_fields-encode small_wire (five ∷ okay ∷ []) (0 ∷ []) 10
      (five-IsEncoded, (okay-IsEncoded, tt)) refl (omega arith)

has_option :
    has_method_option small_wire (some (8 ∷ 5 ∷ 18 ∷ 2 ∷ 111 ∷ 107 ∷ [])) 1 (4 ∷ 5 ∷ []) ≡ true
unfolding has_method_option
has_option = refl
