-- ===== src/Base/Members.antt =====
-- Lists and dictionaries of the program: membership of a name (a Go set of strings), lookup of a
-- key, and predicates on all items of a list.
use Prim.Native.Nat.{ℕ, suc}
use Prim.Native.String.{String}
use mathlib.Core.Path.{◌≡◌, refl}
use mathlib.Core.Logic.{◌⊎◌, inl, inr}
use mathlib.Core.Bool.{Bool, true, false, ◌||◌}
use mathlib.Core.Option.{Option, none, some}
use mathlib.Core.List.{List, [], ◌∷◌, ◌++◌}
use native.Mathlib.Omega.{arith}
use text.Mathlib.Text.{◌==◌}
use text.Mathlib.TextEquality.{eq_iff}
use text.Mathlib.TextPositions.{eq_refl}
use grpcmcp.Base.Tests.{if◌then◌else◌, Bool-cases}

abbrev pub is_some {ℓ} : {A : Type ℓ} → Option A → Bool
is_some none = false
is_some (some a) = true

module _ {ℓ} {A : Type ℓ} where
  abbrev pub length : List A → ℕ
  length [] = 0
  length (x ∷ xs) = suc (length xs)

  abbrev pub All {κ} : (A → Type κ) → List A → Type κ
  All P [] = Unit
  All P (x ∷ xs) = P x × All P xs

  pub All-append {κ} : (P : A → Type κ) (xs ys : List A) → All P xs → All P ys → All P (xs ++ ys)
  All-append P [] ys h k = k
  All-append P (x ∷ xs) ys h k = (h.0, All-append P xs ys h.1 k)

-- `_, found := set[name]`, the set as the list of its elements
unfoldable pub contains : List String → String → Bool
contains [] x = false
contains (y ∷ ys) x = y == x || contains ys x

-- the set holds the name
abbrev pub Has : List String → String → Type 0
Has xs x = contains xs x ≡ true

pub Has-head : (xs : List String) (x : String) → Has (x ∷ xs) x
unfolding contains
Has-head xs x = ground (arith, eq_refl x)

pub Has-tail : (xs : List String) (y x : String) → Has xs x → Has (y ∷ xs) x
unfolding contains
Has-tail xs y x h = ground arith

pub Has-cons : (xs : List String) (y x : String) → Has (y ∷ xs) x → (y ≡ x) ⊎ Has xs x
unfolding contains
Has-cons xs y x h = elim (Bool-cases (y == x)) [
  | inl same ↦ inl ((eq_iff y x).0 same)
  | inr other ↦ inr (ground arith)
]

pub contains-append :
    (xs ys : List String) (x : String) → contains (xs ++ ys) x ≡ (contains xs x || contains ys x)
unfolding contains
contains-append [] ys x = refl
contains-append (y ∷ xs) ys x = ground (arith, contains-append xs ys x)

pub Has-append_left : (xs ys : List String) (x : String) → Has xs x → Has (xs ++ ys) x
Has-append_left xs ys x h = ground (arith, contains-append xs ys x)

pub Has-append_right : (xs ys : List String) (x : String) → Has ys x → Has (xs ++ ys) x
Has-append_right xs ys x h = ground (arith, contains-append xs ys x)

pub Has-append : (xs ys : List String) (x : String) → Has (xs ++ ys) x → Has xs x ⊎ Has ys x
Has-append xs ys x h = elim (Bool-cases (contains xs x)) [
  | inl here ↦ inl here
  | inr there ↦ inr (ground (arith, contains-append xs ys x))
]

-- no name stands twice
abbrev pub NoDup : List String → Type 0
NoDup [] = Unit
NoDup (x ∷ xs) = (contains xs x ≡ false) × NoDup xs

pub NoDup-concat :
    (xs : List String) (x : String) → NoDup xs → contains xs x ≡ false → NoDup (xs ++ x ∷ [])
unfolding contains
NoDup-concat [] x h k = (refl, tt)
NoDup-concat (y ∷ xs) x (new, h) k = (
  ground (arith, contains-append xs (x ∷ []) y, eq_iff x y, eq_iff y x),
  NoDup-concat xs x h (ground arith),
)

-- A Go map with string keys, as an association list; a later write of a key replaces the value.
module _ {ℓ} {V : Type ℓ} where
  unfoldable pub lookup : String → List (String × V) → Option V
  lookup name [] = none
  lookup name ((key, value) ∷ rest) = if key == name then some value else lookup name rest

  unfoldable pub insert : String → V → List (String × V) → List (String × V)
  insert name new [] = (name, new) ∷ []
  insert name new ((key, value) ∷ rest) =
      let later = insert name new rest in
      if key == name then (name, new) ∷ rest else (key, value) ∷ later

  -- what a read finds after a write
  pub lookup-insert :
      (name other : String) (new : V) (entries : List (String × V))
      → lookup other (insert name new entries)
        ≡ (if name == other then some new else lookup other entries)
  unfolding lookup insert
  lookup-insert name other new [] = refl
  lookup-insert name other new ((key, value) ∷ rest) =
      let after = lookup-insert name other new rest in
      ground (arith, after, eq_iff key other, eq_iff key name, eq_iff name other)
