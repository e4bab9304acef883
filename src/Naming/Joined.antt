-- ===== src/Naming/Joined.antt =====
-- Texts that the naming joins: where the last underscore of a text stands, and what it takes to read
-- the two parts of a joined name back.
use Prim.Native.Char.{char, code}
use text.Mathlib.TextEquality.{Char-path}
use text.Mathlib.TextLemmas.{
  nil-append, cons-append, append_assoc, cons≢nil, tail-eq_of_cons-eq, head-eq_of_cons-eq,
}
use grpcmcp.Base.{
  ℕ, Char, String, ◌≡◌, ◌≢◌, refl, sym, ap, ◌∙◌, Bool, true, false, ◌||◌, arith, Bool-cases, inl,
  inr, eqb, if◌then◌else◌,
}
use grpcmcp.Base.Texts.{◌⧺◌}
use grpcmcp.Naming.{replace_dots}

-- the character of this code stands in the text
unfoldable pub has : ℕ → String → Bool
has k String.[] = false
has k (String.◌∷◌ c s) = eqb (code c) k || has k s

abbrev pub Lacks : ℕ → String → Type 0
Lacks k s = has k s ≡ false

pub has-append : (k : ℕ) (a b : String) → has k (a ⧺ b) ≡ (has k a || has k b)
unfolding has
has-append k String.[] b = rw nil-append refl
has-append k (String.◌∷◌ c a) b = rw cons-append (ground (arith, has-append k a b))

-- what stands in front of the last underscore, and behind it
before_last : String → String
before_last String.[] = String.[]
before_last (String.◌∷◌ c s) =
    let rest = before_last s in if has b'_' s then String.◌∷◌ c rest else String.[]

after_last : String → String
after_last String.[] = String.[]
after_last (String.◌∷◌ c s) = let rest = after_last s in if has b'_' s then rest else s

abbrev underscore : Char
underscore = char b'_' tt

with_underscore : (m : String) → "_" ⧺ m ≡ String.◌∷◌ underscore m
with_underscore m = cons-append underscore "" m ∙ ap (λ s. String.◌∷◌ underscore s) (nil-append m)

with_underscores : (m : String) → "__" ⧺ m ≡ "_" ⧺ "_" ⧺ m
with_underscores m = append_assoc "_" "_" m

last_underscore :
    (a m : String) → Lacks b'_' m → (before_last (a ⧺ "_" ⧺ m) ≡ a) × (after_last (a ⧺ "_" ⧺ m) ≡ m)
unfolding before_last after_last has
last_underscore String.[] m h =
    rw nil-append (rw (with_underscore m) (ground (arith, h), ground (arith, h)))
last_underscore (String.◌∷◌ c a) m h =
    let (before, after) = last_underscore a m h in
    let there : has b'_' (a ⧺ "_" ⧺ m) ≡ true =
      has-append b'_' a ("_" ⧺ m) ∙ rw (with_underscore m) (ground arith) in
    rw cons-append (rw there (ap (λ s. String.◌∷◌ c s) before, after))

-- A joined name whose last part has no underscore is read in one way.
pub joined_parts :
    (a m b n : String)
    → Lacks b'_' m
    → Lacks b'_' n
    → a ⧺ "__" ⧺ m ≡ b ⧺ "__" ⧺ n
    → (a ≡ b) × (m ≡ n)
unfolding has
joined_parts a m b n h k e =
    let e' : (a ⧺ "_") ⧺ "_" ⧺ m ≡ (b ⧺ "_") ⧺ "_" ⧺ n = twice a m ∙ e ∙ sym (twice b n) in
    let (first, last) = last_underscore (a ⧺ "_") m h in
    let (first', last') = last_underscore (b ⧺ "_") n k in
    (
      cut_back a ∙ ap before_last (sym first ∙ ap before_last e' ∙ first') ∙ sym (cut_back b),
      sym last ∙ ap after_last e' ∙ last',
    )
  where
    twice : (a m : String) → (a ⧺ "_") ⧺ "_" ⧺ m ≡ a ⧺ "__" ⧺ m
    twice a m = append_assoc a "_" ("_" ⧺ m) ∙ ap (λ s. a ⧺ s) (sym (with_underscores m))

    cut_back : (a : String) → a ≡ before_last (a ⧺ "_")
    cut_back a = sym (last_underscore a "" refl).0

pub joined_has : (a m : String) → has b'_' (a ⧺ "__" ⧺ m) ≡ true
unfolding has
joined_has a m =
    has-append b'_' a ("__" ⧺ m)
    ∙ rw (with_underscores m) (rw (with_underscore ("_" ⧺ m)) (ground arith))

-- replacing dots: over a joined text, where there is none, and read back
pub replace_dots-append : (a b : String) → replace_dots (a ⧺ b) ≡ replace_dots a ⧺ replace_dots b
unfolding replace_dots
replace_dots-append String.[] b = rw nil-append (rw nil-append refl)
replace_dots-append (String.◌∷◌ c a) b = elim (Bool-cases (eqb (code c) b'.')) [
  | inl dot ↦ rw cons-append (rw dot (rw (replace_dots-append a b) (sym (append_assoc _ _ _))))
  | inr other ↦ rw cons-append (rw other (rw (replace_dots-append a b) (rw cons-append refl)))
]

pub replace_dots_none : (s : String) → Lacks b'.' s → replace_dots s ≡ s
unfolding replace_dots has
replace_dots_none String.[] h = refl
replace_dots_none (String.◌∷◌ c s) h = ground (arith, h, replace_dots_none s (ground (arith, h)))

replace_dots-dot :
    (c : Char) (s : String)
    → eqb (code c) b'.' ≡ true
    → replace_dots (String.◌∷◌ c s) ≡ String.◌∷◌ underscore (replace_dots s)
unfolding replace_dots
replace_dots-dot c s dot = rw dot (with_underscore (replace_dots s))

-- a text that has no underscore when its dots are replaced has neither
pub Lacks-replace_dots : (s : String) → Lacks b'_' (replace_dots s) → Lacks b'.' s
unfolding replace_dots has
Lacks-replace_dots String.[] h = refl
Lacks-replace_dots (String.◌∷◌ c s) h = elim (Bool-cases (eqb (code c) b'.')) [
  | inl dot ↦ absurd (no_underscore (sym (ap (has b'_') (replace_dots-dot c s dot)) ∙ h))
  | inr other ↦ ground (arith, h, other, Lacks-replace_dots s (ground (arith, h, other)))
]
  where
    no_underscore : has b'_' (String.◌∷◌ underscore (replace_dots s)) ≢ false
    no_underscore e = ground arith

replace_dots-other :
    (c : Char) (s : String)
    → eqb (code c) b'.' ≡ false
    → replace_dots (String.◌∷◌ c s) ≡ String.◌∷◌ c (replace_dots s)
unfolding replace_dots
replace_dots-other c s other = rw other refl

replace_dots-cons : (c : Char) (s : String) → replace_dots (String.◌∷◌ c s) ≢ ""
replace_dots-cons c s e = elim (Bool-cases (eqb (code c) b'.')) [
  | inl dot ↦ cons≢nil (sym (replace_dots-dot c s dot) ∙ e)
  | inr other ↦ cons≢nil (sym (replace_dots-other c s other) ∙ e)
]

-- replacing dots keeps texts without underscores apart
pub replace_dots_inj :
    (a b : String) → Lacks b'_' a → Lacks b'_' b → replace_dots a ≡ replace_dots b → a ≡ b
unfolding replace_dots has
replace_dots_inj String.[] String.[] h k e = refl
replace_dots_inj String.[] (String.◌∷◌ d b) h k e = absurd (replace_dots-cons d b (sym e))
replace_dots_inj (String.◌∷◌ c a) String.[] h k e = absurd (replace_dots-cons c a e)
replace_dots_inj (String.◌∷◌ c a) (String.◌∷◌ d b) h k e =
    let rest = replace_dots_inj a b (ground (arith, h)) (ground (arith, k)) in
    elim (Bool-cases (eqb (code c) b'.')) [
      | inl p ↦ elim (Bool-cases (eqb (code d) b'.')) [
        | inl q ↦
            let e' = sym (replace_dots-dot c a p) ∙ e ∙ replace_dots-dot d b q in
            same (Char-path c d (ground (arith, p, q))) (rest (tail-eq_of_cons-eq e'))
        | inr q ↦
            let e' = sym (replace_dots-dot c a p) ∙ e ∙ replace_dots-other d b q in
            absurd (ground (arith, k, ap code (head-eq_of_cons-eq e')))
      ]
      | inr p ↦ elim (Bool-cases (eqb (code d) b'.')) [
        | inl q ↦
            let e' = sym (replace_dots-other c a p) ∙ e ∙ replace_dots-dot d b q in
            absurd (ground (arith, h, ap code (head-eq_of_cons-eq e')))
        | inr q ↦
            let e' = sym (replace_dots-other c a p) ∙ e ∙ replace_dots-other d b q in
            same (head-eq_of_cons-eq e') (rest (tail-eq_of_cons-eq e'))
      ]
    ]
  where
    same : c ≡ d → a ≡ b → String.◌∷◌ c a ≡ String.◌∷◌ d b
    same p q = ap (λ x. String.◌∷◌ x a) p ∙ ap (λ x. String.◌∷◌ d x) q
