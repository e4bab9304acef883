-- ===== src/Schema/Unsigned/Exact.antt =====
-- The number members of the schema of an unsigned integer, against the bounds that are allowed.
use grpcmcp.Base.{ℕ, ◌<◌, ◌≡◌, true, arith}
use grpcmcp.Base.Int.{ℤ, pos, negsuc, ◌≤ℤ◌}
use grpcmcp.Schema.Keywords.{accepts_one}
use grpcmcp.Schema.Signed.{Greater, gt, gte, Less, lt, lte, js_max_int, number_base}
use grpcmcp.Schema.Unsigned.{uint_members_from}
use grpcmcp.Schema.Rules.{reversed, allows_bounds}

-- a value of the unsigned type with `size` values
abbrev pub FitsUint : ℕ → ℤ → Type 0
FitsUint size (pos n) = n < size
FitsUint size (negsuc n) = ⊥

abbrev pub FitsUintGreater : ℕ → Greater → Type 0
FitsUintGreater size Greater.unbounded = Unit
FitsUintGreater size (gt g) = FitsUint size g
FitsUintGreater size (gte g) = FitsUint size g

abbrev pub FitsUintLess : ℕ → Less → Type 0
FitsUintLess size Less.unbounded = Unit
FitsUintLess size (lt l) = FitsUint size l
FitsUintLess size (lte l) = FitsUint size l

abbrev pub size_32 : ℕ
size_32 = 4294967296

abbrev pub size_64 : ℕ
size_64 = 18446744073709551616

pub uint_members_32 :
    (g : Greater) (l : Less) (z : ℤ)
    → FitsUintGreater size_32 g
    → FitsUintLess size_32 l
    → FitsUint size_32 z
    → accepts_one (uint_members_from number_base g l 32) z ≡ allows_bounds g l z
unfolding uint_members_from
uint_members_32 Greater.unbounded Less.unbounded z hg hl hz = ground arith
uint_members_32 _ _ z hg hl hz = ground arith

pub uint_members_32_range :
    (g : Greater) (l : Less) (z : ℤ)
    → FitsUintGreater size_32 g
    → FitsUintLess size_32 l
    → accepts_one (uint_members_from number_base g l 32) z ≡ true
    → FitsUint size_32 z
unfolding uint_members_from
uint_members_32_range Greater.unbounded Less.unbounded (pos n) hg hl h = ground arith
uint_members_32_range _ _ (pos n) hg hl h = ground arith
uint_members_32_range Greater.unbounded Less.unbounded (negsuc n) hg hl h = ground arith
uint_members_32_range _ _ (negsuc n) hg hl h = ground arith

-- the lower bound is one that JSON expresses
abbrev pub IsSafeGreater : Greater → Type 0
IsSafeGreater Greater.unbounded = Unit
IsSafeGreater (gt g) = g ≤ℤ js_max_int
IsSafeGreater (gte g) = g ≤ℤ js_max_int

pub uint_members_64 :
    (g : Greater) (l : Less) (z : ℤ)
    → FitsUintGreater size_64 g
    → FitsUintLess size_64 l
    → IsSafeGreater g
    → pos 0 ≤ℤ z
    → z ≤ℤ js_max_int
    → accepts_one (uint_members_from number_base g l 64) z ≡ allows_bounds g l z
unfolding uint_members_from
uint_members_64 Greater.unbounded Less.unbounded z hg hl s lo hi = ground arith
uint_members_64 _ _ z hg hl s lo hi = ground arith

-- The lower bound of the second member is dropped where JSON cannot express it.
pub uint_members_dropped :
    (g : ℤ) (l : Less) (z : ℤ)
    → reversed (gt g) l ≡ true
    → (g ≤ℤ js_max_int → ⊥)
    → accepts_one (uint_members_from number_base (gt g) l 64) z ≡ true
unfolding uint_members_from
uint_members_dropped g Less.unbounded z h far = ground arith
uint_members_dropped g _ z h far = ground arith
