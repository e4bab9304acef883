-- ===== src/Schema/Unsigned/Valid.antt =====
-- What the whole schema of an unsigned integer accepts, const and in rules included.
use mathlib.Core.Bool.{or-false, and-true}
use mathlib.Core.List.{append-nil}
use grpcmcp.Schema.Members.{put_any_of-accepts, accepts_one-string}
use grpcmcp.Base.{
  ℕ, ◌≡◌, refl, sym, ap, ◌∙◌, ◌↔◌, ◌⊎◌, inl, inr, Bool, true, false, ◌&&◌, Option, none, some, List,
  [], ◌∷◌, ◌++◌, arith, if◌then◌else◌,
}
use grpcmcp.Base.Int.{ℤ, pos, eqb_ℤ, ◌≤ℤ◌}
use grpcmcp.Schema.Keywords.{Keywords, empty_schema, accepts_one, schema_accepts, mem_ℤ, put_any_of}
use grpcmcp.Schema.Signed.{
  Greater, gt, Less, NumberRule, js_max_int, number_base, is_or, string_form,
}
use grpcmcp.Schema.Unsigned.{uint_members_from, uint_members, uint_validation, unsigned_pattern}
use grpcmcp.Schema.Rules.{reversed, const_ok, in_ok, allows, IsPlain}
use grpcmcp.Schema.Unsigned.Exact.{
  FitsUint, FitsUintGreater, FitsUintLess, size_32, size_64, IsSafeGreater, uint_members_32,
  uint_members_32_range, uint_members_64, uint_members_dropped,
}

-- With no reversed bounds the enum is one more condition.
uint_members-enum :
    (ys : List ℤ) (g : Greater) (l : Less) (bits : ℕ) (z : ℤ)
    → reversed g l ≡ false
    → accepts_one (uint_members_from (record number_base { int_enum = some ys }) g l bits) z
      ≡ (mem_ℤ z ys && accepts_one (uint_members_from number_base g l bits) z)
unfolding uint_members_from
uint_members-enum ys Greater.unbounded Less.unbounded bits z h = ground arith
uint_members-enum ys _ _ bits z h = ground arith

uint_members-rule :
    (r : NumberRule) (bits : ℕ) (z : ℤ)
    → IsPlain r
    → accepts_one (uint_members r bits) z ≡ (
        const_ok r.const z
        && in_ok r.within z
        && accepts_one (uint_members_from number_base r.greater r.less bits) z)
unfolding uint_members
uint_members-rule r bits z p = go r.const r.within p.one_enum p.not_reversed
  where
    go :
        (c : Option ℤ) (w : List ℤ)
        → (c ≡ none) ⊎ (w ≡ [])
        → (reversed r.greater r.less ≡ false) ⊎ ((c ≡ none) × (w ≡ []))
        → accepts_one (uint_members (record r { const = c; within = w }) bits) z ≡ (
            const_ok c z
            && in_ok w z
            && accepts_one (uint_members_from number_base r.greater r.less bits) z)
    go none [] h k = refl
    go none (y ∷ ys) h (inl k) = uint_members-enum (y ∷ ys) r.greater r.less bits z k
    go (some c) [] h (inl k) =
        let e = uint_members-enum (c ∷ []) r.greater r.less bits z k in
        e
        ∙ ap (λ b. b && accepts_one (uint_members_from number_base r.greater r.less bits) z)
            (or-false (eqb_ℤ z c) ∙ sym (and-true (eqb_ℤ z c)))
    go (some c) (y ∷ ys) (inl h) k = cc
    go (some c) (y ∷ ys) (inr h) k = cc
    go none (y ∷ ys) h (inr k) = cc (k.1)
    go (some c) [] h (inr k) = cc (k.0)

if-cons :
    (b : Bool) (k l : Keywords) (ks ls : List Keywords)
    → (m : Keywords) × (ms : List Keywords) × ((if b then k ∷ ks else l ∷ ls) ≡ m ∷ ms)
if-cons true k l ks ls = (k, ks, refl)
if-cons false k l ks ls = (l, ls, refl)

uint_members-cons :
    (r : NumberRule) (bits : ℕ)
    → (k : Keywords) × (ks : List Keywords) × (uint_members r bits ≡ k ∷ ks)
unfolding uint_members uint_members_from
uint_members-cons r bits = if-cons (is_or r.greater r.less) _ _ _ _

-- the schema of the field accepts what one of its number members accepts
uint_validation-accepts :
    (strict : Bool) (r : NumberRule) (bits : ℕ) (z : ℤ)
    → schema_accepts (uint_validation strict r bits empty_schema) z
      ≡ accepts_one (uint_members r bits) z
unfolding uint_validation
uint_validation-accepts strict r bits z =
    let (k, ks, e) = uint_members-cons r bits in rw e (go strict k ks)
  where
    go :
        (b : Bool) (k : Keywords) (ks : List Keywords)
        → schema_accepts
            (put_any_of
              ((k ∷ ks) ++ (if b then [] else string_form unsigned_pattern ∷ []))
              empty_schema)
            z
          ≡ accepts_one (k ∷ ks) z
    go true k ks = rw append-nil (put_any_of-accepts k ks z)
    go false k ks =
        put_any_of-accepts k (ks ++ string_form unsigned_pattern ∷ []) z
        ∙ accepts_one-string (k ∷ ks) unsigned_pattern z

-- For an unsigned 32-bit field whose bounds are values of the type: the schema accepts an integer
-- exactly if it is a value of the type and all the rules allow it, in strict mode or not. The rules
-- give a const or a list of values, not both, and neither beside reversed bounds.
pub uint32_exact :
    (strict : Bool) (r : NumberRule) (z : ℤ)
    → IsPlain r
    → FitsUintGreater size_32 r.greater
    → FitsUintLess size_32 r.less
    → (schema_accepts (uint_validation strict r 32 empty_schema) z ≡ true)
      ↔ (FitsUint size_32 z × (allows r z ≡ true))
uint32_exact strict r z p hg hl =
    let e = uint_validation-accepts strict r 32 z ∙ uint_members-rule r 32 z p in
    (
      λ h.
          let numbers : accepts_one (uint_members_from number_base r.greater r.less 32) z ≡ true =
            ground (arith, e, h) in
          let fits = uint_members_32_range r.greater r.less z hg hl numbers in
          (fits, ground (arith, e, h, uint_members_32 r.greater r.less z hg hl fits)),
      λ (fits, ok). ground (arith, e, ok, uint_members_32 r.greater r.less z hg hl fits),
    )

-- For an unsigned 64-bit field and an integer from 0 to 2^53 - 1: the schema accepts it exactly if
-- all the rules allow it, provided that the bounds are values of the type, that the lower one is at
-- most 2^53 - 1, and that the rules give a const or a list of values, not both, and neither beside
-- reversed bounds.
pub uint64_exact :
    (strict : Bool) (r : NumberRule) (z : ℤ)
    → IsPlain r
    → FitsUintGreater size_64 r.greater
    → FitsUintLess size_64 r.less
    → IsSafeGreater r.greater
    → pos 0 ≤ℤ z
    → z ≤ℤ js_max_int
    → schema_accepts (uint_validation strict r 64 empty_schema) z ≡ allows r z
uint64_exact strict r z p hg hl s lo hi =
    uint_validation-accepts strict r 64 z
    ∙ uint_members-rule r 64 z p
    ∙ ap (λ b. const_ok r.const z && in_ok r.within z && b)
        (uint_members_64 r.greater r.less z hg hl s lo hi)

-- Where an unsigned 64-bit rule reverses its bounds, `gt` being above 2^53 - 1, and has no const
-- and no list of values, the schema accepts every integer, also those between the two bounds
-- that the rules forbid: the bound `gt` is left out of the second member.
pub uint64_reversed_accepts_all :
    (strict : Bool) (g : ℤ) (l : Less) (z : ℤ)
    → reversed (gt g) l ≡ true
    → (g ≤ℤ js_max_int → ⊥)
    → schema_accepts
        (uint_validation strict
          (record { const = none; within = []; greater = gt g; less = l })
          64
          empty_schema)
        z
      ≡ true
unfolding uint_members
uint64_reversed_accepts_all strict g l z h far =
    uint_validation-accepts strict _ 64 z ∙ uint_members_dropped g l z h far
