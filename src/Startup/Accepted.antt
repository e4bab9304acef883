-- ===== src/Startup/Accepted.antt =====
-- main.go: what the flags and the environment of an accepted start say, against the settings that it
-- runs with.
use grpcmcp.Base.{ℕ, String, ◌≡◌, ◌≢◌, ◌⊎◌, true, false, Option, some, List, [], ◌∷◌, Has}
use grpcmcp.Base.Texts.{◌⧺◌}
use grpcmcp.Base.Results.{Result, ok}
use grpcmcp.Header.{Header, get}
use grpcmcp.Header.Laws.{same_key, values}
use grpcmcp.Forward.{operator_identity_header, cut_colon}
use grpcmcp.Startup.{Flags, split_commas, Settings}
use grpcmcp.Startup.Checked.{IsValid}

module _ (parse_uint : ℕ → String → Result String ℕ) where
  -- each text is the decimal number beside it, within 64 bits
  abbrev pub AllParsed : List String → List ℕ → Type 0
  AllParsed [] [] = Unit
  AllParsed (v ∷ vs) (n ∷ ns) = (parse_uint 64 v ≡ ok n) × AllParsed vs ns
  AllParsed _ _ = ⊥

  -- the texts in front of the first colon and behind it are the number of a field and its values
  abbrev pub IsOption : String → ℕ → List ℕ → Type 0
  IsOption s field ns =
      (a : String) × (b : String) × (cut_colon s ≡ some (a, b))
      × (parse_uint 32 a ≡ ok field)
      × AllParsed (split_commas b) ns

-- the token of a variable that is set and not empty is in the headers, beside those of the flags
abbrev pub HasToken : Option String → Header → Header → Type 0
HasToken found flag_headers headers =
    (token : String) × (found ≡ some token)
    × (token ≢ "")
    × (get headers "Authorization" ≡ "Bearer " ⧺ token)
    × ((k : String) → same_key "Authorization" k ≡ false → values headers k ≡ values flag_headers k)

module _ {C : Type 0} (parse_uint : ℕ → String → Result String ℕ) (f : Flags)
    (backend : Result String (Option C)) (look_up_env : String → Option String)
    (flag_headers : Header) where
  -- every condition of the start, and the settings that follow from the flags
  pub record IsConfigured (s : Settings C) : Type 0 where
    pub flags : IsValid f s.transport
    pub no_option : f.require_method_option ≡ "" → (s.option_field ≡ 0) × (s.option_values ≡ [])
    pub option :
        f.require_method_option ≢ ""
        → IsOption parse_uint f.require_method_option s.option_field s.option_values
    pub no_token : f.bearer_env ≡ "" → s.headers ≡ flag_headers
    pub token : f.bearer_env ≢ "" → HasToken (look_up_env f.bearer_env) flag_headers s.headers
    pub names_apart : (name : String) → Has f.forward_header_names name → get s.headers name ≡ ""
    pub identity_apart :
        f.forward_operator_identity ≡ true → get s.headers operator_identity_header ≡ ""
    pub source : (f.descriptors ≢ "") ⊎ (f.reflect ≡ true)
