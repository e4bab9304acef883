-- ===== src/Schema/Floats.antt =====
-- float32 and float64 values. A finite value is a whole number of units of 2^-1074, the least
-- positive float64, so that the order of the values is the order of the integers.
use grpcmcp.Base.{ℕ, Bool, true, false, ◌||◌, ◌-◌, ◌*◌, ◌^◌}
use grpcmcp.Base.Int.{ℤ, pos, negsuc, ltb_ℤ, eqb_ℤ}

pub data Float : Type 0 where
  nan pos_inf neg_inf : Float
  finite : ℤ → Float

-- `a < b`, which is false where one is NaN
abbrev pub lt_float : Float → Float → Bool
lt_float nan b = false
lt_float pos_inf b = false
lt_float neg_inf nan = false
lt_float neg_inf neg_inf = false
lt_float neg_inf pos_inf = true
lt_float neg_inf (finite z) = true
lt_float (finite y) nan = false
lt_float (finite y) neg_inf = false
lt_float (finite y) pos_inf = true
lt_float (finite y) (finite z) = ltb_ℤ y z

-- `a == b`
abbrev pub eq_float : Float → Float → Bool
eq_float nan b = false
eq_float pos_inf pos_inf = true
eq_float pos_inf _ = false
eq_float neg_inf neg_inf = true
eq_float neg_inf _ = false
eq_float (finite y) (finite z) = eqb_ℤ y z
eq_float (finite y) _ = false

-- `a <= b`
abbrev pub le_float : Float → Float → Bool
le_float a b = lt_float a b || eq_float a b

-- math.MaxFloat32: (2^24 - 1) * 2^104, in units
unfoldable pub max_float32_units : ℕ
max_float32_units = (2 ^ 24 - 1) * 2 ^ 1178

abbrev pub max_float32 : Float
max_float32 = finite (pos max_float32_units)

abbrev pub minus_max_float32 : Float
minus_max_float32 = finite (negsuc (max_float32_units - 1))
