-- ===== src/Forward/Flags.antt =====
-- The -header flag: what it accepts, and what it adds.
use Prim.Native.Char.{code}
use Prim.Native.String
use Prim.Native.String.{String, [], ◌∷◌}
use text.Mathlib.TextLemmas.{nil-append, cons-append}
use grpcmcp.Base.{◌≡◌, refl, true, false, none, some, eqb, if◌then◌else◌, ◌++◌, List}
use grpcmcp.Base.Results.{ok, err}
use grpcmcp.Header.{Header, add}
use grpcmcp.Header.Laws.{same_key, values, values-add}
use grpcmcp.Forward.{cut_colon, trim_left, set_header_flag}

abbrev pub NoColon : String → Type 0
NoColon [] = Unit
NoColon (c ∷ s) = (eqb (code c) b':' ≡ false) × NoColon s

-- the text does not begin with a blank
abbrev pub IsTrimmed : String → Type 0
IsTrimmed [] = Unit
IsTrimmed (c ∷ s) = eqb (code c) b' ' ≡ false

abbrev pub colon : String
colon = ":"

pub cut_colon-append :
    (k v : String) → NoColon k → cut_colon (String.◌++◌ k (String.◌++◌ colon v)) ≡ some (k, v)
unfolding cut_colon
cut_colon-append [] v h = rw nil-append (rw cons-append (rw nil-append))
cut_colon-append (c ∷ k) v (h, hs) = rw cons-append (rw h (rw (cut_colon-append k v hs)))

cut_colon-none : (s : String) → NoColon s → cut_colon s ≡ none
unfolding cut_colon
cut_colon-none [] h = refl
cut_colon-none (c ∷ s) (h, hs) = rw h (rw (cut_colon-none s hs))

-- any number of blanks
abbrev pub IsBlank : String → Type 0
IsBlank [] = Unit
IsBlank (c ∷ s) = (eqb (code c) b' ' ≡ true) × IsBlank s

trim_left-trimmed : (v : String) → IsTrimmed v → trim_left v ≡ v
unfolding trim_left
trim_left-trimmed [] h = refl
trim_left-trimmed (c ∷ v) h = rw h

trim_left-append : (b v : String) → IsBlank b → IsTrimmed v → trim_left (String.◌++◌ b v) ≡ v
unfolding trim_left
trim_left-append [] v h t = rw nil-append (trim_left-trimmed v t)
trim_left-append (c ∷ b) v (h, hs) t = rw cons-append (rw h (trim_left-append b v hs t))

-- `key: value`, with any number of blanks behind the colon, adds the value to those of the key,
-- and leaves the other keys as they were.
pub header_flag_adds :
    (headers : Header) (k blanks v j : String)
    → NoColon k
    → IsBlank blanks
    → IsTrimmed v
    → (h : Header) × (set_header_flag headers
          (String.◌++◌ k (String.◌++◌ colon (String.◌++◌ blanks v)))
        ≡ ok h)
      × (values h j
          ≡ (if same_key k j then values headers k ++ List.◌∷◌ v List.[] else values headers j))
unfolding set_header_flag
header_flag_adds headers k blanks v j no_colon blank trimmed = (
  add headers k v,
  rw (cut_colon-append k (String.◌++◌ blanks v) no_colon, set_header_flag)
      (rw (trim_left-append blanks v blank trimmed)),
  values-add headers k j v,
)

-- A value with no colon is refused.
pub header_flag_refuses :
    (headers : Header) (value : String)
    → NoColon value
    → set_header_flag headers value ≡ err "err invalid header format: expecting `key: value`"
unfolding set_header_flag
header_flag_refuses headers value h = rw (cut_colon-none value h, set_header_flag)
