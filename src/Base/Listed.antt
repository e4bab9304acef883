-- ===== src/Base/Listed.antt =====
-- Lists of distinct names: the values of a function at the members of a list, which are given by the
-- library's family of the positions of an item.
use Prim.Native.String.{String}
use mathlib.Core.Path.{◌≡◌, refl, sym, ◌∙◌, ap}
use mathlib.Core.Logic.{◌⊎◌, inl, inr}
use mathlib.Core.Bool.{true, false}
use mathlib.Core.List.{List, [], ◌∷◌, map, Memᴰ}
use native.Mathlib.Omega.{arith}
use grpcmcp.Base.Tests.{Bool-cases}
use grpcmcp.Base.Members.{Has, Has-cons, Has-head, Has-tail, NoDup, contains}

module _ {ℓ} {A : Type ℓ} (f : A → String) where
  pub map-Has : (xs : List A) {x : A} → Memᴰ x xs → Has (map f xs) (f x)
  map-Has [] h = elim h [ ]
  map-Has (y ∷ xs) (Memᴰ.head e) = rw e (Has-head (map f xs) (f y))
  map-Has (y ∷ xs) (Memᴰ.tail h) = Has-tail (map f xs) (f y) _ (map-Has xs h)

  pub Has-map : (xs : List A) (k : String) → Has (map f xs) k → (x : A) × Memᴰ x xs × (f x ≡ k)
  unfolding contains
  Has-map [] k h = absurd (ground arith)
  Has-map (x ∷ xs) k h = elim (Has-cons (map f xs) (f x) k h) [
    | inl e ↦ (x, Memᴰ.head refl, e)
    | inr later ↦ let (y, there, e) = Has-map xs k later in (y, Memᴰ.tail there, e)
  ]

module _ {ℓ} {A : Type ℓ} (f : A → String) where
  -- A function that keeps apart what `g` does gives distinct names where `g` does.
  pub NoDup-map :
      (g : A → String) (xs : List A)
      → ((x y : A) → Memᴰ x xs → Memᴰ y xs → f x ≡ f y → g x ≡ g y)
      → NoDup (map g xs)
      → NoDup (map f xs)
  NoDup-map g [] apart h = tt
  NoDup-map g (x ∷ xs) apart (new, h) = (
    is_new (Bool-cases (contains (map f xs) (f x))),
    NoDup-map g xs (λ y z p q e. apart y z (Memᴰ.tail p) (Memᴰ.tail q) e) h,
  )
    where
      is_new :
          (contains (map f xs) (f x) ≡ true) ⊎ (contains (map f xs) (f x) ≡ false)
          → contains (map f xs) (f x) ≡ false
      is_new (inr e) = e
      is_new (inl found) =
          let (y, there, e) = Has-map f xs (f x) found in
          let same = apart y x (Memᴰ.tail there) (Memᴰ.head refl) e in
          let again : contains (map g xs) (g x) ≡ true =
            ap (contains (map g xs)) (sym same) ∙ map-Has g xs there in
          absurd (ground (arith, again, new))
