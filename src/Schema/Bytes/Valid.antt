-- ===== src/Schema/Bytes/Valid.antt =====
-- The lengths that a schema admits, beside those that the rules allow.
use Prim.Native.Nat.{◌*◌}
use grpcmcp.Base.{
  ℕ, suc, zero, ◌+◌, ◌≤◌, ◌<◌, ◌≡◌, refl, Bool, true, false, Option, none, some, eqb, arith,
  if◌then◌else◌,
}
use grpcmcp.Schema.Bytes.{
  u64_mod, base64_encoded_length, BytesRules, Lengths, bytes_lengths, StringRules, string_lengths,
  lengths_of, encoded_min, encoded_max, byte_bound, string_lengths_of, string_min, or_bound,
}

-- Where four times the size does not wrap, `characters` is the length of the base64 encoding without
-- padding, four for each three bytes and two or three for the rest, and the padding fills it up to
-- a multiple of four.
pub base64_encoded_length_lem :
    (q rest : ℕ)
    → rest < 3
    → (q * 3 + rest) * 4 < u64_mod
    → ((base64_encoded_length (q * 3 + rest)).0 ≡ q * 4 + (if eqb rest 0 then 0 else rest + 1))
      × ((base64_encoded_length (q * 3 + rest)).0 + (base64_encoded_length (q * 3 + rest)).1
          ≡ q * 4 + (if eqb rest 0 then 0 else 4))
unfolding base64_encoded_length
base64_encoded_length_lem q zero h k = ground arith
base64_encoded_length_lem q (suc zero) h k = ground arith
base64_encoded_length_lem q (suc (suc zero)) h k = ground arith
base64_encoded_length_lem q (suc (suc (suc n))) h k = absurd (omega arith)

-- the two lengths grow with the size
base64_mono :
    (m n : ℕ)
    → m ≤ n
    → n * 4 < u64_mod
    → ((base64_encoded_length m).0 ≤ (base64_encoded_length n).0)
      × ((base64_encoded_length m).0 + (base64_encoded_length m).1
          ≤ (base64_encoded_length n).0 + (base64_encoded_length n).1)
unfolding base64_encoded_length
base64_mono m n h k = ground arith

abbrev pub AtMost : Option ℕ → ℕ → Type 0
AtMost none n = Unit
AtMost (some b) n = n ≤ b

abbrev pub AtLeast : Option ℕ → ℕ → Type 0
AtLeast none n = Unit
AtLeast (some b) n = b ≤ n

abbrev pub Is : Option ℕ → ℕ → Type 0
Is none n = Unit
Is (some b) n = n ≡ b

-- a length lies within the keywords
abbrev pub Within : Lengths → ℕ → Type 0
Within l n = AtLeast l.min_length n × AtMost l.max_length n

-- no overflow in the encoded length of a bound
abbrev pub IsSmall : Option ℕ → Type 0
IsSmall none = Unit
IsSmall (some b) = b * 4 < u64_mod

AtMost-mono : (o : Option ℕ) (m k : ℕ) → AtMost o (m + k) → AtMost o m
AtMost-mono none m k h = tt
AtMost-mono (some b) m k h = omega arith

AtLeast-mono : (o : Option ℕ) (m k : ℕ) → AtLeast o m → AtLeast o (m + k)
AtLeast-mono none m k h = tt
AtLeast-mono (some b) m k h = omega arith

b64_pos : (n : ℕ) → 0 < n → n * 4 < u64_mod → 1 ≤ (base64_encoded_length n).0
unfolding base64_encoded_length
b64_pos n h k = ground arith

-- Every byte string that the rules allow, encoded with padding or without, has a length that the
-- schema admits: one that meets the exact, the least and the greatest length that are set, and is
-- not empty where the field is required. No size may be so large that four times it wraps.
pub bytes_lengths-Within :
    (r : BytesRules) (required : Bool) (n : ℕ)
    → Is r.len n
    → AtLeast r.min_len n
    → AtMost r.max_len n
    → (required ≡ true → 0 < n)
    → n * 4 < u64_mod
    → IsSmall r.max_len
    → Within (bytes_lengths (some r) required) (base64_encoded_length n).0
      × Within
          (bytes_lengths (some r) required)
          ((base64_encoded_length n).0 + (base64_encoded_length n).1)
unfolding bytes_lengths lengths_of encoded_min encoded_max
bytes_lengths-Within r required n is least most present fits small =
    go r.len r.min_len r.max_len is least most small
  where
    mini :
        (m : Option ℕ) → AtLeast m n → AtLeast (encoded_min required m) (base64_encoded_length n).0
    mini none h = by_required required present
      where
        by_required :
            (b : Bool)
            → (b ≡ true → 0 < n)
            → AtLeast (encoded_min b none) (base64_encoded_length n).0
        by_required true p = b64_pos n (p refl) fits
        by_required false p = tt
    mini (some m) h = (base64_mono m n h fits).0

    maxi :
        (m : Option ℕ)
        → AtMost m n
        → IsSmall m
        → AtMost (encoded_max m) ((base64_encoded_length n).0 + (base64_encoded_length n).1)
    maxi none h k = tt
    maxi (some m) h k = (base64_mono n m h k).1

    go :
        (len min_len max_len : Option ℕ)
        → Is len n
        → AtLeast min_len n
        → AtMost max_len n
        → IsSmall max_len
        → Within
            (lengths_of len (record { len = len; min_len = min_len; max_len = max_len }) required)
            (base64_encoded_length n).0
          × Within
              (lengths_of len (record { len = len; min_len = min_len; max_len = max_len }) required)
              ((base64_encoded_length n).0 + (base64_encoded_length n).1)
    go (some b) m x e h k s = rw (← e) (omega arith)
    go none m x e h k s = (
      (mini m h, AtMost-mono (encoded_max x) _ _ (maxi x k s)),
      (AtLeast-mono (encoded_min required m) _ _ (mini m h), maxi x k s),
    )

-- A string of `c` characters and `b` bytes that the rules allow has a length that the schema admits,
-- if the rules do not give an exact number of bytes.
pub string_lengths-Within :
    (r : StringRules) (required : Bool) (c b : ℕ)
    → r.len_bytes ≡ none
    → c ≤ b
    → Is r.len c
    → AtLeast r.min_len c
    → AtMost r.max_len c
    → AtMost r.max_bytes b
    → (required ≡ true → 0 < c)
    → Within (string_lengths (some r) required) c
unfolding string_lengths string_lengths_of string_min byte_bound
string_lengths-Within r required c b no_bytes h is least most bytes present =
    rw no_bytes (go r.len r.min_len r.max_len r.max_bytes is least most bytes)
  where
    mini : (m : Option ℕ) → AtLeast m c → AtLeast (string_min required m) c
    mini none l = by_required required present
      where
        by_required : (b : Bool) → (b ≡ true → 0 < c) → AtLeast (string_min b none) c
        by_required true p = p refl
        by_required false p = tt
    mini (some m) l = by_required required present
      where
        by_required : (b : Bool) → (b ≡ true → 0 < c) → AtLeast (string_min b (some m)) c
        by_required true p = ground (arith, p refl)
        by_required false p = ground arith

    maxi : (x y : Option ℕ) → AtMost x c → AtMost y b → AtMost (or_bound x y) c
    maxi none none l k = tt
    maxi none (some y) l k = omega arith
    maxi (some x) y l k = l

    go :
        (len min_len max_len max_bytes : Option ℕ)
        → Is len c
        → AtLeast min_len c
        → AtMost max_len c
        → AtMost max_bytes b
        → Within
            (string_lengths_of len
              (record {
                len_bytes = none;
                max_bytes = max_bytes;
                len = len;
                min_len = min_len;
                max_len = max_len;
              })
              required)
            c
    go (some n) m x y e l k j = rw (← e) (omega arith)
    go none m x y e l k j = (mini m l, maxi x y k j)

-- Where the rules give an exact number of bytes and no other upper bound, the schema admits only the
-- empty string: its `maxLength` is the unset `max_bytes`, zero.
pub len_bytes_rejects :
    (r : StringRules) (required : Bool) (b c : ℕ)
    → r.len_bytes ≡ some b
    → r.len ≡ none
    → r.max_len ≡ none
    → r.max_bytes ≡ none
    → 0 < c
    → ¬ Within (string_lengths (some r) required) c
unfolding string_lengths string_lengths_of string_min byte_bound
len_bytes_rejects r required b c e e' e'' e3 h w = ground (arith, e, e', e'', e3)
