-- ===== src/Schema/Signed/Exact.antt =====
-- The number members of the schema of a signed integer, against the bounds that are allowed.
use grpcmcp.Base.{ℕ, ◌≡◌, true, arith}
use grpcmcp.Base.Int.{ℤ, pos, negsuc, ◌≤ℤ◌}
use grpcmcp.Schema.Keywords.{accepts_one}
use grpcmcp.Schema.Signed.{Greater, Less, js_max_int, js_min_int, members_from, number_base}
use grpcmcp.Schema.Rules.{allows_bounds, FitsAt, FitsGreater, FitsLess}

-- the power of two that bounds the type, and whether the schema can bound it
abbrev pub half_32 : ℕ
half_32 = 2147483648

pub members_32 :
    (g : Greater) (l : Less) (z : ℤ)
    → FitsGreater half_32 g
    → FitsLess half_32 l
    → FitsAt half_32 z
    → accepts_one (members_from number_base g l 32) z ≡ allows_bounds g l z
unfolding members_from
members_32 Greater.unbounded Less.unbounded z hg hl hz = ground arith
members_32 _ _ z hg hl hz = ground arith

pub members_32_range :
    (g : Greater) (l : Less) (z : ℤ)
    → FitsGreater half_32 g
    → FitsLess half_32 l
    → accepts_one (members_from number_base g l 32) z ≡ true
    → FitsAt half_32 z
unfolding members_from
members_32_range Greater.unbounded Less.unbounded (pos n) hg hl h = ground arith
members_32_range _ _ (pos n) hg hl h = ground arith
members_32_range Greater.unbounded Less.unbounded (negsuc n) hg hl h = ground arith
members_32_range _ _ (negsuc n) hg hl h = ground arith

-- At 64 bits the bounds that JSON cannot express are left out, and change nothing for the integers
-- from -(2^53 - 1) to 2^53 - 1.
pub members_64 :
    (g : Greater) (l : Less) (z : ℤ)
    → js_min_int ≤ℤ z
    → z ≤ℤ js_max_int
    → accepts_one (members_from number_base g l 64) z ≡ allows_bounds g l z
unfolding members_from
members_64 Greater.unbounded Less.unbounded z h k = ground arith
members_64 _ _ z h k = ground arith
