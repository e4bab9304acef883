-- ===== src/Header/Canonical.antt =====
-- http.CanonicalHeaderKey: the first letter, and each letter after a hyphen, in upper case, the
-- others in lower case; a key with a byte that no header name has stays as it is.
use Prim.Native.Char.{Char, code, nul}
use Prim.Native.String.{String, [], ◌∷◌}
use grpcmcp.Base.{
  ℕ, zero, suc, ◌-◌, ◌<◌, ◌≡◌, refl, ap, ap, inl, inr, Bool, true, false, not, ◌&&◌, ◌||◌, arith,
  leb, eqb, if◌then◌else◌, Bool-cases,
}

is_lower : Char → Bool
is_lower c = leb b'a' (code c) && leb (code c) b'z'

is_upper : Char → Bool
is_upper c = leb b'A' (code c) && leb (code c) b'Z'

is_digit : Char → Bool
is_digit c = leb b'0' (code c) && leb (code c) b'9'

one_of : String → Char → Bool
one_of [] c = false
one_of (d ∷ s) c = eqb (code d) (code c) || one_of s c

-- the bytes of a header name, RFC 7230's token
is_token : Char → Bool
unfolding is_lower is_upper is_digit one_of
is_token c = is_lower c || is_upper c || is_digit c || one_of "!#$%&'*+-.^_`|~" c

at_or_nul : String → ℕ → Char
at_or_nul [] n = nul
at_or_nul (c ∷ s) zero = c
at_or_nul (c ∷ s) (suc n) = at_or_nul s n

upper_at : ℕ → Char
unfolding at_or_nul
upper_at n = at_or_nul "ABCDEFGHIJKLMNOPQRSTUVWXYZ" n

lower_at : ℕ → Char
unfolding at_or_nul
lower_at n = at_or_nul "abcdefghijklmnopqrstuvwxyz" n

to_upper : Char → Char
unfolding is_lower upper_at
to_upper c = if is_lower c then upper_at (code c - b'a') else c

to_lower : Char → Char
unfolding is_upper lower_at
to_lower c = if is_upper c then lower_at (code c - b'A') else c

cased : Bool → Char → Char
unfolding to_upper to_lower
cased upper c = if upper then to_upper c else to_lower c

all_tokens : String → Bool
all_tokens [] = true
all_tokens (c ∷ s) = is_token c && all_tokens s

recase : Bool → String → String
recase upper [] = []
recase upper (c ∷ s) = cased upper c ∷ recase (eqb (code (cased upper c)) b'-') s

unfoldable pub canonical : String → String
unfolding all_tokens recase cased is_token
canonical s = if all_tokens s then recase true s else s

canonical_test : canonical "x-operator-IDENTITY" ≡ "X-Operator-Identity"
unfolding canonical
canonical_test = refl

canonical_bad : canonical "bad key" ≡ "bad key"
unfolding canonical
canonical_bad = refl

-- a test that holds of every number below a bound
below : ℕ → (ℕ → Bool) → Bool
below zero p = true
below (suc n) p = p n && below n p

below_sound : (n : ℕ) (p : ℕ → Bool) (x : ℕ) → below n p ≡ true → x < n → p x ≡ true
unfolding below
below_sound zero p x h lt = absurd (omega arith)
below_sound (suc n) p x h lt = ground (arith, below_sound n p x)

upper_table : below 26 (λ n. not (is_lower (upper_at n)) && is_token (upper_at n)) ≡ true
unfolding below upper_at is_token
upper_table = refl

lower_table : below 26 (λ n. not (is_upper (lower_at n)) && is_token (lower_at n)) ≡ true
unfolding below lower_at is_token
lower_table = refl

upper_fact : (n : ℕ) → n < 26 → (not (is_lower (upper_at n)) && is_token (upper_at n)) ≡ true
upper_fact n h =
    below_sound 26 (λ k. not (is_lower (upper_at k)) && is_token (upper_at k)) n upper_table h

lower_fact : (n : ℕ) → n < 26 → (not (is_upper (lower_at n)) && is_token (lower_at n)) ≡ true
lower_fact n h =
    below_sound 26 (λ k. not (is_upper (lower_at k)) && is_token (lower_at k)) n lower_table h

lower_range : (c : Char) → is_lower c ≡ true → code c - b'a' < 26
unfolding is_lower
lower_range c h = ground arith

upper_range : (c : Char) → is_upper c ≡ true → code c - b'A' < 26
unfolding is_upper
upper_range c h = ground arith

-- a letter in upper case is no longer in lower case
not-is_lower : (c : Char) → is_lower (if is_lower c then upper_at (code c - b'a') else c) ≡ false
not-is_lower c = elim (Bool-cases (is_lower c)) [
  | inl low ↦ rw low (ground (arith, upper_fact (code c - b'a') (lower_range c low)))
  | inr high ↦ rw high high
]

not-is_upper : (c : Char) → is_upper (if is_upper c then lower_at (code c - b'A') else c) ≡ false
not-is_upper c = elim (Bool-cases (is_upper c)) [
  | inl high ↦ rw high (ground (arith, lower_fact (code c - b'A') (upper_range c high)))
  | inr low ↦ rw low low
]

cased_idem : (u : Bool) (c : Char) → cased u (cased u c) ≡ cased u c
unfolding cased
cased_idem true c = rw (not-is_lower c)
cased_idem false c = rw (not-is_upper c)

cased-is_token : (u : Bool) (c : Char) → is_token c ≡ true → is_token (cased u c) ≡ true
unfolding cased
cased-is_token true c h = elim (Bool-cases (is_lower c)) [
  | inl low ↦ rw low (ground (arith, upper_fact (code c - b'a') (lower_range c low)))
  | inr high ↦ rw high h
]
cased-is_token false c h = elim (Bool-cases (is_upper c)) [
  | inl high ↦ rw high (ground (arith, lower_fact (code c - b'A') (upper_range c high)))
  | inr low ↦ rw low h
]

recase_idem : (u : Bool) (s : String) → recase u (recase u s) ≡ recase u s
unfolding recase
recase_idem u [] = refl
recase_idem u (c ∷ s) =
    rw (cased_idem u c) (ap (λ t. cased u c ∷ t) (recase_idem (eqb (code (cased u c)) b'-') s))

recase-all_tokens : (u : Bool) (s : String) → all_tokens s ≡ true → all_tokens (recase u s) ≡ true
unfolding recase all_tokens
recase-all_tokens u [] h = refl
recase-all_tokens u (c ∷ s) h =
    ground (arith, cased-is_token u c, recase-all_tokens (eqb (code (cased u c)) b'-') s)

-- A canonical key is its own canonical form.
pub canonical_idem : (s : String) → canonical (canonical s) ≡ canonical s
unfolding canonical
canonical_idem s = elim (Bool-cases (all_tokens s)) [
  | inl valid ↦ rw valid (rw (recase-all_tokens true s valid) (recase_idem true s))
  | inr invalid ↦ rw invalid (rw invalid)
]
