-- ===== src/Schema/Rules.antt =====
-- What the rules of a number field allow, as protovalidate documents them, and when a bound is a
-- value of the field's type.
use grpcmcp.Base.{
  ℕ, suc, ◌≤◌, ◌≡◌, ◌⊎◌, Bool, true, false, ◌&&◌, ◌||◌, Option, none, some, List, [], ◌∷◌,
  if◌then◌else◌,
}
use grpcmcp.Base.Int.{ℤ, pos, negsuc, ltb_ℤ, leb_ℤ, eqb_ℤ}
use grpcmcp.Schema.Keywords.{mem_ℤ}
use grpcmcp.Schema.Signed.{Greater, gt, gte, Less, lt, lte, NumberRule}

abbrev pub above : Greater → ℤ → Bool
above Greater.unbounded z = true
above (gt g) z = ltb_ℤ g z
above (gte g) z = leb_ℤ g z

abbrev pub below : Less → ℤ → Bool
below Less.unbounded z = true
below (lt l) z = ltb_ℤ z l
below (lte l) z = leb_ℤ z l

-- the upper bound excludes the lower one
abbrev pub reversed : Greater → Less → Bool
reversed (gt g) (lt l) = leb_ℤ l g
reversed (gt g) (lte l) = leb_ℤ l g
reversed (gte g) (lt l) = leb_ℤ l g
reversed (gte g) (lte l) = ltb_ℤ l g
reversed _ _ = false

-- what protovalidate documents of the bounds: both hold, or one of them if they are reversed
abbrev pub allows_bounds : Greater → Less → ℤ → Bool
allows_bounds g l z = if reversed g l then above g z || below l z else above g z && below l z

-- the values of the integer type, for a power of two `half`
abbrev pub FitsAt : ℕ → ℤ → Type 0
FitsAt half (pos n) = suc n ≤ half
FitsAt half (negsuc n) = suc n ≤ half

abbrev pub FitsGreater : ℕ → Greater → Type 0
FitsGreater half Greater.unbounded = Unit
FitsGreater half (gt g) = FitsAt half g
FitsGreater half (gte g) = FitsAt half g

abbrev pub FitsLess : ℕ → Less → Type 0
FitsLess half Less.unbounded = Unit
FitsLess half (lt l) = FitsAt half l
FitsLess half (lte l) = FitsAt half l

-- the const rule, and the in rule (with no values it says nothing)
abbrev pub const_ok : Option ℤ → ℤ → Bool
const_ok none z = true
const_ok (some c) z = eqb_ℤ z c

abbrev pub in_ok : List ℤ → ℤ → Bool
in_ok [] z = true
in_ok (y ∷ ys) z = mem_ℤ z (y ∷ ys)

-- the value is one that all the rules allow
abbrev pub allows : NumberRule → ℤ → Bool
allows r z = const_ok r.const z && in_ok r.within z && allows_bounds r.greater r.less z

-- A rule gives a const or a list of values, not both, and gives neither beside reversed bounds.
pub record IsPlain (r : NumberRule) : Type 0 where
  pub one_enum : (r.const ≡ none) ⊎ (r.within ≡ [])
  pub not_reversed : (reversed r.greater r.less ≡ false) ⊎ ((r.const ≡ none) × (r.within ≡ []))
