-- ===== src/Schema/Members.antt =====
-- A schema that is put together from the members of an `anyOf` accepts what one of them accepts.
use mathlib.Core.Bool.{or-false, and-true}
use grpcmcp.Base.{String, ◌≡◌, refl, sym, ap, ◌∙◌, ◌||◌, some, List, [], ◌∷◌, ◌++◌, arith}
use grpcmcp.Base.Int.{ℤ}
use grpcmcp.Schema.Keywords.{
  Keywords, no_keywords, empty_schema, accepts, accepts_one, schema_accepts, put_any_of, copy_into,
  string,
}

copy_into-empty : (k : Keywords) → (copy_into k empty_schema).own ≡ k
copy_into-empty k = ground arith

pub put_any_of-accepts :
    (k : Keywords) (ks : List Keywords) (z : ℤ)
    → schema_accepts (put_any_of (k ∷ ks) empty_schema) z ≡ accepts_one (k ∷ ks) z
unfolding schema_accepts
put_any_of-accepts k [] z =
    and-true _ ∙ ap (λ x. accepts x z) (copy_into-empty k) ∙ sym (or-false (accepts k z))
put_any_of-accepts k (l ∷ ks) z = refl

-- a member for the string form accepts no integer
pub accepts_one-string :
    (ks : List Keywords) (p : String) (z : ℤ)
    → accepts_one (ks ++ record no_keywords { type_name = some string; pattern = some p } ∷ []) z
      ≡ accepts_one ks z
accepts_one-string [] p z = refl
accepts_one-string (k ∷ ks) p z = ap (λ b. accepts k z || b) (accepts_one-string ks p z)
