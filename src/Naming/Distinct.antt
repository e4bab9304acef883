-- ===== src/Naming/Distinct.antt =====
-- When the names that the naming chooses are distinct.
use mathlib.Core.Path.{subst}
use mathlib.Core.List.{Memᴰ}
use grpcmcp.Base.{
  String, ◌≡◌, ◌≢◌, ◌≤◌, ◌<◌, refl, sym, ap, ◌∙◌, ◌⊎◌, inl, inr, Bool, true, false, List, [], ◌∷◌,
  map, arith, eq_iff,
}
use grpcmcp.Base.Texts.{◌⧺◌}
use grpcmcp.Descriptor.{Method, Service}
use grpcmcp.Naming.{generate_tool_name, replace_dots}
use grpcmcp.Naming.Counting.{occurrences}
use grpcmcp.Naming.Joined.{
  has, has-append, Lacks, joined_parts, joined_has, replace_dots_inj, replace_dots_none,
  replace_dots-append, Lacks-replace_dots,
}

module _ {ℓ} {A : Type ℓ} (f : A → String) where
  occurs : {x : A} (xs : List A) (k : String) → Memᴰ x xs → f x ≡ k → 0 < occurrences k (map f xs)
  unfolding occurrences
  occurs [] k h e = elim h [ ]
  occurs (y ∷ xs) k (Memᴰ.head same) e =
      ground (arith, eq_iff (f y) k, ap f same ∙ sym refl, e, sym (ap f same) ∙ e)
  occurs (y ∷ xs) k (Memᴰ.tail h) e = ground (arith, occurs xs k h e)

  -- an item is the only one of its name
  pub only :
      {x y : A} (xs : List A) (k : String)
      → occurrences k (map f xs) ≤ 1
      → Memᴰ x xs
      → Memᴰ y xs
      → f x ≡ k
      → f y ≡ k
      → x ≡ y
  unfolding occurrences
  only [] k few h h' e e' = elim h [ ]
  only (z ∷ xs) k few (Memᴰ.head a) (Memᴰ.head b) e e' = a ∙ sym b
  only (z ∷ xs) k few (Memᴰ.head a) (Memᴰ.tail b) e e' =
      absurd (ground (arith, few, occurs xs k b e', eq_iff (f z) k, sym (ap f a) ∙ e))
  only (z ∷ xs) k few (Memᴰ.tail a) (Memᴰ.head b) e e' =
      absurd (ground (arith, few, occurs xs k a e, eq_iff (f z) k, sym (ap f b) ∙ e'))
  only (z ∷ xs) k few (Memᴰ.tail a) (Memᴰ.tail b) e e' = only xs k (ground (arith, few)) a b e e'

-- The name of a service is the last part of its full name; neither it nor the name of a method has
-- an underscore, nor the latter a dot.
pub record IsPlain (p : Service × Method) : Type 0 where
  pub service_named :
      (p.0.full_name ≡ p.0.name) ⊎ ((prefix : String) × (p.0.full_name ≡ prefix ⧺ "." ⧺ p.0.name))
  pub service_plain : Lacks b'_' p.0.full_name
  pub method_plain : Lacks b'_' p.1.name
  pub method_dotless : Lacks b'.' p.1.name

pub Lacks-name : (p : Service × Method) → IsPlain p → Lacks b'_' p.0.name
Lacks-name p plain = elim plain.service_named [
  | inl e ↦ ap (has b'_') (sym e) ∙ plain.service_plain
  | inr (prefix, e) ↦
      let all = ap (has b'_') (sym e) ∙ plain.service_plain in
      ground (arith, all, has-append b'_' prefix ("." ⧺ p.0.name), has-append b'_' "." p.0.name)
]

-- a full name without dots is the name
dotless-name :
    (p : Service × Method) → IsPlain p → Lacks b'.' p.0.full_name → p.0.full_name ≡ p.0.name
unfolding has
dotless-name p plain h = elim plain.service_named [
  | inl e ↦ e
  | inr (prefix, e) ↦
      let all = ap (has b'.') (sym e) ∙ h in
      absurd
        (ground (arith, all, has-append b'.' prefix ("." ⧺ p.0.name), has-append b'.' "." p.0.name))
]

-- the text in front of a method's name, where one is used
abbrev Prefix : Bool → Service × Method → String → Type 0
Prefix short p a =
    ((short ≡ false) × (a ≡ p.0.name)) ⊎ ((short ≡ true) × (a ≡ replace_dots p.0.full_name))

abbrev pub generated : Bool → Bool → Service × Method → String
generated short very_short p = generate_tool_name short very_short p.0.full_name p.0.name p.1.name

generated_cases :
    (short very_short : Bool) (p : Service × Method)
    → IsPlain p
    → ((very_short ≡ false) × (generated short very_short p ≡ p.1.name))
      ⊎ ((very_short ≡ true)
          × (a : String) × (generated short very_short p ≡ a ⧺ "__" ⧺ p.1.name)
          × Prefix short p a)
unfolding generate_tool_name replace_dots
generated_cases short false p plain = inl (refl, refl)
generated_cases false true p plain = inr (refl, p.0.name, refl, inl (refl, refl))
generated_cases true true p plain = inr (refl, replace_dots p.0.full_name, parts, inr (refl, refl))
  where
    parts :
        replace_dots (p.0.full_name ⧺ "__" ⧺ p.1.name)
        ≡ replace_dots p.0.full_name ⧺ "__" ⧺ p.1.name
    parts =
        replace_dots-append p.0.full_name ("__" ⧺ p.1.name)
        ∙ ap (λ s. replace_dots p.0.full_name ⧺ s)
            (replace_dots-append "__" p.1.name
              ∙ ap (λ s. "__" ⧺ s) (replace_dots_none p.1.name plain.method_dotless))

mixed_name :
    (p q : Service × Method)
    → IsPlain p
    → IsPlain q
    → p.0.name ≡ replace_dots q.0.full_name
    → p.0.name ≡ q.0.name
mixed_name p q plain plain' e =
    let dotless = Lacks-replace_dots q.0.full_name (ap (has b'_') (sym e) ∙ Lacks-name p plain) in
    e ∙ replace_dots_none q.0.full_name dotless ∙ dotless-name q plain' dotless

-- two prefixes of one text are those of one service, if those that bear one name collide alike
Prefix-same :
    (short short' : Bool) (p q : Service × Method) (a : String)
    → IsPlain p
    → IsPlain q
    → (p.0.name ≡ q.0.name → short ≡ short')
    → (short ≡ false → p.0.name ≡ q.0.name → p.0.full_name ≡ q.0.full_name)
    → Prefix short p a
    → Prefix short' q a
    → p.0.full_name ≡ q.0.full_name
Prefix-same short short' p q a plain plain' alike alone (inl (s, e)) (inl (s', e')) =
    alone s (sym e ∙ e')
Prefix-same short short' p q a plain plain' alike alone (inl (s, e)) (inr (s', e')) =
    absurd (ground (arith, s, s', alike (mixed_name p q plain plain' (sym e ∙ e'))))
Prefix-same short short' p q a plain plain' alike alone (inr (s, e)) (inl (s', e')) =
    absurd (ground (arith, s, s', alike (sym (mixed_name q p plain' plain (sym e' ∙ e)))))
Prefix-same short short' p q a plain plain' alike alone (inr (s, e)) (inr (s', e')) =
    replace_dots_inj p.0.full_name q.0.full_name plain.service_plain plain'.service_plain
      (sym e ∙ e')

abbrev pub Same : Service × Method → Service × Method → Type 0
Same p q = (p.0.full_name ≡ q.0.full_name) × (p.1.name ≡ q.1.name)

-- Plain methods of one tool name have one name, in services of one full name, if methods and services
-- that are found to be alone with their name are.
pub generated-Same :
    (short short' very very' : Bool) (p q : Service × Method)
    → IsPlain p
    → IsPlain q
    → (p.0.name ≡ q.0.name → short ≡ short')
    → (short ≡ false → p.0.name ≡ q.0.name → p.0.full_name ≡ q.0.full_name)
    → (very ≡ false → p.1.name ≡ q.1.name → p ≡ q)
    → generated short very p ≡ generated short' very' q
    → Same p q
generated-Same short short' very very' p q plain plain' alike alone sole e =
    go (generated_cases short very p plain) (generated_cases short' very' q plain')
  where
    Cases : Bool → Bool → Service × Method → Type 0
    Cases short very p =
        ((very ≡ false) × (generated short very p ≡ p.1.name))
        ⊎ ((very ≡ true)
            × (a : String) × (generated short very p ≡ a ⧺ "__" ⧺ p.1.name)
            × Prefix short p a)

    not_joined : (p q : Service × Method) (a : String) → IsPlain p → p.1.name ≢ a ⧺ "__" ⧺ q.1.name
    not_joined p q a plain e =
        absurd (ground (arith, plain.method_plain, ap (has b'_') e, joined_has a q.1.name))

    go : Cases short very p → Cases short' very' q → Same p q
    go (inl (v, x)) (inl (w, y)) = let m = sym x ∙ e ∙ y in (ap (λ r. r.0.full_name) (sole v m), m)
    go (inl (v, x)) (inr (w, a, y, z)) = absurd (not_joined p q a plain (sym x ∙ e ∙ y))
    go (inr (v, a, x, z)) (inl (w, y)) = absurd (not_joined q p a plain' (sym y ∙ sym e ∙ x))
    go (inr (v, a, x, z)) (inr (w, b, y, z')) =
        let (prefix, m) =
          joined_parts a p.1.name b q.1.name plain.method_plain plain'.method_plain
            (sym x ∙ e ∙ y) in
        (
          Prefix-same short short' p q a plain plain' alike alone z
              (subst (Prefix short' q) (sym prefix) z'),
          m,
        )
