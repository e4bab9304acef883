-- ===== src/Schema/Signed/Valid.antt =====
-- What the whole schema of a signed integer accepts, const and in rules included.
use mathlib.Core.Bool.{or-false, and-true}
use mathlib.Core.List.{append-nil}
use grpcmcp.Schema.Members.{put_any_of-accepts, accepts_one-string}
use grpcmcp.Base.{
  ℕ, ◌≡◌, refl, sym, ap, ◌∙◌, ◌↔◌, ◌⊎◌, inl, inr, Bool, true, false, ◌&&◌, Option, none, some, List,
  [], ◌∷◌, ◌++◌, arith, if◌then◌else◌,
}
use grpcmcp.Base.Int.{ℤ, eqb_ℤ, ◌≤ℤ◌}
use grpcmcp.Schema.Keywords.{Keywords, empty_schema, accepts_one, schema_accepts, mem_ℤ, put_any_of}
use grpcmcp.Schema.Signed.{
  Greater, Less, NumberRule, js_max_int, js_min_int, members_from, number_base, is_or, string_form,
  signed_pattern, int_members, int_validation,
}
use grpcmcp.Schema.Rules.{reversed, FitsAt, FitsGreater, FitsLess, const_ok, in_ok, allows, IsPlain}
use grpcmcp.Schema.Signed.Exact.{half_32, members_32, members_32_range, members_64}

-- With no reversed bounds the enum is one more condition.
members-enum :
    (ys : List ℤ) (g : Greater) (l : Less) (bits : ℕ) (z : ℤ)
    → reversed g l ≡ false
    → accepts_one (members_from (record number_base { int_enum = some ys }) g l bits) z
      ≡ (mem_ℤ z ys && accepts_one (members_from number_base g l bits) z)
unfolding members_from
members-enum ys Greater.unbounded Less.unbounded bits z h = ground arith
members-enum ys _ _ bits z h = ground arith

members-rule :
    (r : NumberRule) (bits : ℕ) (z : ℤ)
    → IsPlain r
    → accepts_one (int_members r bits) z ≡ (
        const_ok r.const z
        && in_ok r.within z
        && accepts_one (members_from number_base r.greater r.less bits) z)
unfolding int_members
members-rule r bits z p = go r.const r.within p.one_enum p.not_reversed
  where
    go :
        (c : Option ℤ) (w : List ℤ)
        → (c ≡ none) ⊎ (w ≡ [])
        → (reversed r.greater r.less ≡ false) ⊎ ((c ≡ none) × (w ≡ []))
        → accepts_one (int_members (record r { const = c; within = w }) bits) z ≡ (
            const_ok c z
            && in_ok w z
            && accepts_one (members_from number_base r.greater r.less bits) z)
    go none [] h k = refl
    go none (y ∷ ys) h (inl k) = members-enum (y ∷ ys) r.greater r.less bits z k
    go (some c) [] h (inl k) =
        let e = members-enum (c ∷ []) r.greater r.less bits z k in
        e
        ∙ ap (λ b. b && accepts_one (members_from number_base r.greater r.less bits) z)
            (or-false (eqb_ℤ z c) ∙ sym (and-true (eqb_ℤ z c)))
    go (some c) (y ∷ ys) (inl h) k = cc
    go (some c) (y ∷ ys) (inr h) k = cc
    go none (y ∷ ys) h (inr k) = cc (k.1)
    go (some c) [] h (inr k) = cc (k.0)

if-cons :
    (b : Bool) (k l : Keywords) (ks ls : List Keywords)
    → (m : Keywords) × (ms : List Keywords) × ((if b then k ∷ ks else l ∷ ls) ≡ m ∷ ms)
if-cons true k l ks ls = (k, ks, refl)
if-cons false k l ks ls = (l, ls, refl)

int_members-cons :
    (r : NumberRule) (bits : ℕ)
    → (k : Keywords) × (ks : List Keywords) × (int_members r bits ≡ k ∷ ks)
unfolding int_members members_from
int_members-cons r bits = if-cons (is_or r.greater r.less) _ _ _ _

-- the schema of the field accepts what one of its number members accepts
int_validation-accepts :
    (strict : Bool) (r : NumberRule) (bits : ℕ) (z : ℤ)
    → schema_accepts (int_validation strict r bits empty_schema) z
      ≡ accepts_one (int_members r bits) z
unfolding int_validation
int_validation-accepts strict r bits z =
    let (k, ks, e) = int_members-cons r bits in rw e (go strict k ks)
  where
    go :
        (b : Bool) (k : Keywords) (ks : List Keywords)
        → schema_accepts
            (put_any_of
              ((k ∷ ks) ++ (if b then [] else string_form signed_pattern ∷ []))
              empty_schema)
            z
          ≡ accepts_one (k ∷ ks) z
    go true k ks = rw append-nil (put_any_of-accepts k ks z)
    go false k ks =
        put_any_of-accepts k (ks ++ string_form signed_pattern ∷ []) z
        ∙ accepts_one-string (k ∷ ks) signed_pattern z

-- For a 32-bit field whose bounds are values of the type: the schema accepts an integer exactly if
-- it is a value of the type and all the rules allow it, in strict mode or not. The rules give a
-- const or a list of values, not both, and neither beside reversed bounds.
pub int32_exact :
    (strict : Bool) (r : NumberRule) (z : ℤ)
    → IsPlain r
    → FitsGreater half_32 r.greater
    → FitsLess half_32 r.less
    → (schema_accepts (int_validation strict r 32 empty_schema) z ≡ true)
      ↔ (FitsAt half_32 z × (allows r z ≡ true))
int32_exact strict r z p hg hl =
    let e = int_validation-accepts strict r 32 z ∙ members-rule r 32 z p in
    (
      λ h.
          let numbers : accepts_one (members_from number_base r.greater r.less 32) z ≡ true =
            ground (arith, e, h) in
          let fits = members_32_range r.greater r.less z hg hl numbers in
          (fits, ground (arith, e, h, members_32 r.greater r.less z hg hl fits)),
      λ (fits, ok). ground (arith, e, ok, members_32 r.greater r.less z hg hl fits),
    )

-- For a 64-bit field and an integer that a JSON number holds exactly: the schema accepts it exactly
-- if all the rules allow it, whatever their bounds are.
pub int64_exact :
    (strict : Bool) (r : NumberRule) (z : ℤ)
    → IsPlain r
    → js_min_int ≤ℤ z
    → z ≤ℤ js_max_int
    → schema_accepts (int_validation strict r 64 empty_schema) z ≡ allows r z
int64_exact strict r z p lo hi =
    int_validation-accepts strict r 64 z
    ∙ members-rule r 64 z p
    ∙ ap (λ b. const_ok r.const z && in_ok r.within z && b) (members_64 r.greater r.less z lo hi)
