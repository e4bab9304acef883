-- ===== src/Schema/Enums/Exact.antt =====
-- The integers that the schema of an enum field admits, beside the values that the rules allow.
use mathlib.Core.Path.{subst}
use grpcmcp.Base.{
  ◌≡◌, refl, ◌∙◌, ap, inl, inr, Bool, true, false, ◌&&◌, ◌||◌, List, [], ◌∷◌, arith, Bool-cases,
}
use grpcmcp.Base.Int.{ℤ, leb_ℤ, eqb_ℤ, suc_ℤ, suc_ℤ_parts, eq_of_eqb_ℤ, ◌≤ℤ◌, ◌<ℤ◌}
use grpcmcp.Schema.Keywords.{accepts, accepts_one, mem_ℤ}
use grpcmcp.Schema.Enums.{
  insert_sorted, sort, compact_after, compact, range_keywords, ranges_from, ranges_of,
  enum_int32_validation,
}

mem-insert_sorted :
    (z y : ℤ) (ys : List ℤ) → mem_ℤ z (insert_sorted y ys) ≡ (eqb_ℤ z y || mem_ℤ z ys)
unfolding insert_sorted
mem-insert_sorted z y [] = refl
mem-insert_sorted z y (x ∷ ys) = ground (arith, mem-insert_sorted z y ys)

mem-sort : (z : ℤ) (zs : List ℤ) → mem_ℤ z (sort zs) ≡ mem_ℤ z zs
unfolding sort
mem-sort z [] = refl
mem-sort z (y ∷ ys) = mem-insert_sorted z y (sort ys) ∙ ap (λ b. eqb_ℤ z y || b) (mem-sort z ys)

mem-compact_after :
    (z y : ℤ) (ys : List ℤ)
    → (eqb_ℤ z y || mem_ℤ z (compact_after y ys)) ≡ (eqb_ℤ z y || mem_ℤ z ys)
unfolding compact_after
mem-compact_after z y [] = refl
mem-compact_after z y (x ∷ ys) = ground (arith, mem-compact_after z x ys)

mem-compact : (z : ℤ) (zs : List ℤ) → mem_ℤ z (compact zs) ≡ mem_ℤ z zs
mem-compact z [] = refl
mem-compact z (y ∷ ys) = mem-compact_after z y ys

-- the elements rise, and lie above the bound
abbrev Rises : ℤ → List ℤ → Type 0
Rises low [] = Unit
Rises low (z ∷ zs) = (low <ℤ z) × Rises z zs

abbrev Sorted : ℤ → List ℤ → Type 0
Sorted low [] = Unit
Sorted low (z ∷ zs) = (low ≤ℤ z) × Sorted z zs

abbrev IsSorted : List ℤ → Type 0
IsSorted [] = Unit
IsSorted (z ∷ zs) = Sorted z zs

insert_sorted-Sorted :
    (low z : ℤ) (zs : List ℤ) → low ≤ℤ z → Sorted low zs → Sorted low (insert_sorted z zs)
unfolding insert_sorted
insert_sorted-Sorted low z [] h s = (h, tt)
insert_sorted-Sorted low z (y ∷ ys) h (k, s) = elim (Bool-cases (leb_ℤ z y)) [
  | inl le ↦ rw le (h, (ground (arith, le), s))
  | inr gt ↦ rw gt (k, insert_sorted-Sorted y z ys (ground (arith, gt)) s)
]

insert_sorted-IsSorted : (z : ℤ) (zs : List ℤ) → IsSorted zs → IsSorted (insert_sorted z zs)
unfolding insert_sorted
insert_sorted-IsSorted z [] s = tt
insert_sorted-IsSorted z (y ∷ ys) s = elim (Bool-cases (leb_ℤ z y)) [
  | inl le ↦ rw le (ground (arith, le), s)
  | inr gt ↦ rw gt (insert_sorted-Sorted y z ys (ground (arith, gt)) s)
]

sort-IsSorted : (zs : List ℤ) → IsSorted (sort zs)
unfolding sort
sort-IsSorted [] = tt
sort-IsSorted (z ∷ zs) = insert_sorted-IsSorted z (sort zs) (sort-IsSorted zs)

compact_after-Rises : (z : ℤ) (zs : List ℤ) → Sorted z zs → Rises z (compact_after z zs)
unfolding compact_after
compact_after-Rises z [] s = tt
compact_after-Rises z (y ∷ ys) (h, s) = elim (Bool-cases (eqb_ℤ y z)) [
  | inl same ↦ rw same (
      subst (λ x. Rises x (compact_after y ys)) (eq_of_eqb_ℤ y z same) (compact_after-Rises y ys s))
  | inr new ↦ rw new (ground (arith, new), compact_after-Rises y ys s)
]

range_accepts :
    (start last z : ℤ) → accepts (range_keywords start last) z ≡ (leb_ℤ start z && leb_ℤ z last)
range_accepts start last z = ground arith

-- a number that follows the range extends it
range_extend :
    (start last y z : ℤ) (m : Bool)
    → start ≤ℤ last
    → eqb_ℤ y (suc_ℤ last) ≡ true
    → (leb_ℤ start z && leb_ℤ z y || m) ≡ (leb_ℤ start z && leb_ℤ z last || (eqb_ℤ z y || m))
range_extend start last y z m h e = ground (arith, suc_ℤ_parts last)

range_one : (y z : ℤ) (m : Bool) → (leb_ℤ y z && leb_ℤ z y || m) ≡ (eqb_ℤ z y || m)
range_one y z m = ground arith

-- the ranges of rising numbers hold the open range and the numbers
ranges_from-accepts :
    (start last : ℤ) (zs : List ℤ) (z : ℤ)
    → start ≤ℤ last
    → Rises last zs
    → accepts_one (ranges_from start last zs) z ≡ (leb_ℤ start z && leb_ℤ z last || mem_ℤ z zs)
unfolding ranges_from
ranges_from-accepts start last [] z h r = ap (λ b. b || false) (range_accepts start last z)
ranges_from-accepts start last (y ∷ ys) z h (k, r) = elim (Bool-cases (eqb_ℤ y (suc_ℤ last))) [
  | inl next ↦ rw next (
      ranges_from-accepts start y ys z (omega arith) r
      ∙ range_extend start last y z (mem_ℤ z ys) h next)
  | inr apart ↦ rw apart (
      ap (λ b. b || accepts_one (ranges_from y y ys) z) (range_accepts start last z)
      ∙ ap (λ b. (leb_ℤ start z && leb_ℤ z last) || b)
          (ranges_from-accepts y y ys z (omega arith) r ∙ range_one y z (mem_ℤ z ys)))
]

-- The ranges admit exactly the integers of the list.
pub enum_int32_validation-accepts :
    (zs : List ℤ) (z : ℤ) → accepts_one (enum_int32_validation zs) z ≡ mem_ℤ z zs
unfolding enum_int32_validation
enum_int32_validation-accepts zs z = go (sort zs) (sort-IsSorted zs) ∙ mem-sort z zs
  where
    go : (ys : List ℤ) → IsSorted ys → accepts_one (ranges_of (compact ys)) z ≡ mem_ℤ z ys
    go [] s = refl
    go (y ∷ ys) s =
        ranges_from-accepts y y (compact_after y ys) z (omega arith) (compact_after-Rises y ys s)
        ∙ range_one y z (mem_ℤ z (compact_after y ys))
        ∙ mem-compact_after z y ys
