-- ===== src/Schema/Examples/Values.antt =====
-- Rules of enum and float fields, on concrete values.
use grpcmcp.Base.{◌≡◌, inl, refl, true, false, not, ◌&&◌, none, List, [], ◌∷◌}
use grpcmcp.Base.Int.{pos}
use grpcmcp.Schema.Floats.{
  pos_inf, finite, le_float, max_float32_units, max_float32, minus_max_float32,
}
use grpcmcp.Schema.Fields.{EnumRules, EnumValue, FloatRules, gt_float, lte_bound}
use grpcmcp.Schema.Enums.{enum_any_of}
use grpcmcp.Schema.Enums.Selected.{enum_allows, is_named, number_allowed, enum_any_of_exact}
use grpcmcp.Schema.Enums.Admitted.{admits_text, admits_number}
use grpcmcp.Schema.Reals.{real_state, float_members}
use grpcmcp.Schema.Reals.Exact.{no_list}
use grpcmcp.Schema.Reals.Numbers.{admits, to_admit, float_exact}

abbrev colours : List EnumValue
colours =
    record { number = pos 0; name = "NONE" }
    ∷ record { number = pos 1; name = "RED" }
    ∷ record { number = pos 2; name = "GREEN" }
    ∷ []

abbrev not_red : EnumRules
not_red = record { const = none; within = []; not_in = pos 1 ∷ []; defined_only = true }

enum_any_of_exact_example :
    (admits_text (enum_any_of false not_red true false colours) "RED"
      ≡ is_named (enum_allows not_red true) colours "RED")
    × (admits_number (enum_any_of false not_red true false colours) (pos 2)
        ≡ (not false && number_allowed not_red true colours (pos 2)))
enum_any_of_exact_example = enum_any_of_exact false not_red true false colours "RED" (pos 2)

-- greater than zero, and at most infinity
abbrev positive : FloatRules
positive = record {
  is_finite = false;
  const = none;
  within = [];
  greater = gt_float (finite (pos 0));
  less = lte_bound pos_inf;
}

five_low : le_float minus_max_float32 (finite (pos 5)) ≡ true
unfolding max_float32_units
five_low = refl

five_high : le_float (finite (pos 5)) max_float32 ≡ true
unfolding max_float32_units
five_high = refl

float_exact_example :
    admits (float_members false (real_state true positive)) (finite (pos 5))
    ≡ to_admit false positive (finite (pos 5))
float_exact_example =
    float_exact false true positive (finite (pos 5)) (no_list positive refl refl) tt tt (inl refl)
      (five_low, five_high)
