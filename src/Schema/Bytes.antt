-- ===== src/Schema/Bytes.antt =====
-- `base64EncodedLength`, and the length keywords of `generateBytesValidation` and
-- `generateStringValidation`.
pub mod Valid
use Prim.Native.Nat.{◌^◌, ◌%◌, ◌/◌, ◌*◌}
use grpcmcp.Base.{ℕ, ◌+◌, ◌-◌, Bool, Option, none, some, eqb, ltb, if◌then◌else◌}

-- uint64 arithmetic, which wraps
abbrev pub u64_mod : ℕ
u64_mod = 18446744073709551616

-- `characters` and `padding`; the sum and the difference after the product do not wrap
pub base64_encoded_length : ℕ → ℕ × ℕ
base64_encoded_length input_size =
    let whole = input_size * 4 % u64_mod / 3 in
    let characters = if eqb (input_size % 3) 0 then whole else whole + 1 in
    (characters, (4 - characters % 4) % 4)

pub record BytesRules : Type 0 where
  pub len : Option ℕ
  pub min_len : Option ℕ
  pub max_len : Option ℕ

-- `minLength` and `maxLength`
pub record Lengths : Type 0 where
  pub min_length : Option ℕ
  pub max_length : Option ℕ

abbrev no_lengths : Lengths
no_lengths = record { min_length = none; max_length = none }

encoded_max : Option ℕ → Option ℕ
encoded_max none = none
encoded_max (some n) = let (size, padding) = base64_encoded_length n in some (size + padding)

encoded_min : Bool → Option ℕ → Option ℕ
encoded_min required none = if required then some 1 else none
encoded_min required (some n) = let (size, _) = base64_encoded_length n in some size

lengths_of : Option ℕ → BytesRules → Bool → Lengths
lengths_of (some n) r required =
    let (size, padding) = base64_encoded_length n in
    record { min_length = some size; max_length = some (size + padding) }
lengths_of none r required = record {
  min_length = encoded_min required r.min_len;
  max_length = encoded_max r.max_len;
}

pub bytes_lengths : Option BytesRules → Bool → Lengths
unfolding lengths_of encoded_min encoded_max
bytes_lengths none required = no_lengths
bytes_lengths (some r) required = lengths_of r.len r required

pub record StringRules : Type 0 where
  pub len_bytes : Option ℕ
  pub max_bytes : Option ℕ
  pub len : Option ℕ
  pub min_len : Option ℕ
  pub max_len : Option ℕ

-- `GetMaxBytes()`: zero where the rule is not set
abbrev get_or_zero : Option ℕ → ℕ
get_or_zero none = 0
get_or_zero (some n) = n

-- the bound that the byte rules give
byte_bound : StringRules → Option ℕ
byte_bound r = elim r.len_bytes [ some _ ↦ some (get_or_zero r.max_bytes) | none ↦ r.max_bytes ]

string_min : Bool → Option ℕ → Option ℕ
string_min required none = if required then some 1 else none
string_min required (some n) = if ltb 0 n then some n else if required then some 1 else none

abbrev pub or_bound : Option ℕ → Option ℕ → Option ℕ
or_bound none old = old
or_bound (some n) old = some n

string_lengths_of : Option ℕ → StringRules → Bool → Lengths
unfolding byte_bound string_min
string_lengths_of (some n) r required = record { min_length = some n; max_length = some n }
string_lengths_of none r required = record {
  min_length = string_min required r.min_len;
  max_length = or_bound r.max_len (byte_bound r);
}

pub string_lengths : Option StringRules → Bool → Lengths
unfolding string_lengths_of
string_lengths none required = no_lengths
string_lengths (some r) required = string_lengths_of r.len r required
