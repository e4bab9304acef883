-- ===== src/Schema/Examples.antt =====
-- Rules of each kind of field, on concrete values.
pub mod Messages
mod Structs
mod Values
mod Bundles
use grpcmcp.Base.{◌+◌, ◌≡◌, ◌↔◌, refl, inl, true, false, none, some, [], arith}
use grpcmcp.Base.Int.{pos}
use grpcmcp.Schema.Keywords.{schema_accepts, empty_schema}
use grpcmcp.Schema.Signed.{gt, lt, lte, NumberRule, int_validation}
use grpcmcp.Schema.Signed.Valid.{int32_exact, int64_exact}
use grpcmcp.Schema.Rules.{FitsAt, allows, IsPlain}
use grpcmcp.Schema.Unsigned.{uint_validation}
use grpcmcp.Schema.Unsigned.Exact.{FitsUint, size_32}
use grpcmcp.Schema.Unsigned.Valid.{uint32_exact, uint64_exact, uint64_reversed_accepts_all}
use grpcmcp.Schema.Bytes.{
  base64_encoded_length, BytesRules, bytes_lengths, StringRules, string_lengths,
}
use grpcmcp.Schema.Bytes.Valid.{
  base64_encoded_length_lem, bytes_lengths-Within, string_lengths-Within, len_bytes_rejects, Within,
}

-- greater than 2 and at most 10
abbrev between : NumberRule
between = record { const = none; within = []; greater = gt (pos 2); less = lte (pos 10) }

between-IsPlain : IsPlain between
between-IsPlain = record { one_enum = inl refl; not_reversed = inl refl }

int32_exact_example :
    (schema_accepts (int_validation false between 32 empty_schema) (pos 5) ≡ true)
    ↔ (FitsAt 2147483648 (pos 5) × (allows between (pos 5) ≡ true))
int32_exact_example = int32_exact false between (pos 5) between-IsPlain (omega arith) (omega arith)

int64_exact_example :
    schema_accepts (int_validation true between 64 empty_schema) (pos 5) ≡ allows between (pos 5)
int64_exact_example = int64_exact true between (pos 5) between-IsPlain (omega arith) (omega arith)

uint32_exact_example :
    (schema_accepts (uint_validation false between 32 empty_schema) (pos 5) ≡ true)
    ↔ (FitsUint size_32 (pos 5) × (allows between (pos 5) ≡ true))
uint32_exact_example =
    uint32_exact false between (pos 5) between-IsPlain (omega arith) (omega arith)

uint64_exact_example :
    schema_accepts (uint_validation true between 64 empty_schema) (pos 5) ≡ allows between (pos 5)
uint64_exact_example =
    uint64_exact true between (pos 5) between-IsPlain (omega arith) (omega arith) (omega arith)
      (omega arith) (omega arith)

uint64_reversed_accepts_all_example :
    schema_accepts
      (uint_validation false
        (record {
          const = none;
          within = [];
          greater = gt (pos 9007199254740993);
          less = lt (pos 5);
        })
        64
        empty_schema)
      (pos 7)
    ≡ true
uint64_reversed_accepts_all_example =
    uint64_reversed_accepts_all false (pos 9007199254740993) (lt (pos 5)) (pos 7) refl
      (λ h. omega arith)

abbrev few_bytes : BytesRules
few_bytes = record { len = none; min_len = some 2; max_len = some 9 }

bytes_lengths-Within_example :
    Within (bytes_lengths (some few_bytes) true) (base64_encoded_length 7).0
    × Within
        (bytes_lengths (some few_bytes) true)
        ((base64_encoded_length 7).0 + (base64_encoded_length 7).1)
bytes_lengths-Within_example =
    bytes_lengths-Within few_bytes true 7 tt (omega arith) (omega arith) (λ e. omega arith)
      (omega arith) (omega arith)

abbrev short : StringRules
short = record {
  len_bytes = none;
  max_bytes = some 20;
  len = none;
  min_len = some 1;
  max_len = some 10;
}

abbrev three_bytes : StringRules
three_bytes = record {
  len_bytes = some 3;
  max_bytes = none;
  len = none;
  min_len = none;
  max_len = none;
}

len_bytes_rejects_example : ¬ Within (string_lengths (some three_bytes) false) 3
len_bytes_rejects_example =
    len_bytes_rejects three_bytes false 3 3 refl refl refl refl (omega arith)
