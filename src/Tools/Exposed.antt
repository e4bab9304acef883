-- ===== src/Tools/Exposed.antt =====
-- Which methods become tools.
use mathlib.Core.Path.{subst}
use grpcmcp.Base.{
  String, Bool, true, false, if◌then◌else◌, ◌≡◌, ◌≢◌, refl, sym, ◌∙◌, ap, Option, none, some, List,
  [], ◌∷◌, ◌++◌, map, arith,
}
use grpcmcp.Base.Results.{Result, ok, bind-eq-ok, ◌>>=◌}
use grpcmcp.Descriptor.{Method, Service, FileProto}
use grpcmcp.Naming.{Registries, selected, exposed}
use grpcmcp.Naming.Counting.{exposed_of, with_service, exposed_pairs, exposed_in}
use grpcmcp.Tools.{
  offered, ServerTool, Config, procedure_of, name_by, tool_of, tools_of_methods, tools_of_services,
  tools_of_files, tools, tools_of, register_new,
}

-- what identifies a tool: its name, the procedure that it calls, and its method
pub record Identity : Type 0 where
  pub name : String
  pub procedure : String
  pub method : Method

abbrev pub identity : ServerTool → Identity
identity t = record { name = t.name; procedure = t.procedure; method = t.method }

append_assoc {ℓ} : {A : Type ℓ} (xs ys zs : List A) → (xs ++ ys) ++ zs ≡ xs ++ (ys ++ zs)
append_assoc [] ys zs = refl
append_assoc (x ∷ xs) ys zs = ap (λ l. x ∷ l) (append_assoc xs ys zs)

append_nil {ℓ} : {A : Type ℓ} (xs : List A) → xs ++ [] ≡ xs
append_nil [] = refl
append_nil (x ∷ xs) = ap (λ l. x ∷ l) (append_nil xs)

map_append {ℓ κ} :
    {A : Type ℓ} {B : Type κ} (f : A → B) (xs ys : List A) → map f (xs ++ ys) ≡ map f xs ++ map f ys
map_append f [] ys = refl
map_append f (x ∷ xs) ys = ap (λ l. f x ∷ l) (map_append f xs ys)

-- `Tools` and the namer of `main` check alike which methods are exposed
pub offered-exposed :
    (filter : Option (Method → Bool)) (m : Method) → offered filter m ≡ exposed filter m
unfolding offered exposed
offered-exposed none m = ground arith
offered-exposed (some f) m = ground arith

module _ {R : Type 0} (lib : Registries R) (trim_space : String → String)
    (input_schema : Bool → Method → Result String String) (cfg : Config) where
  abbrev pub tool_identity : Service × Method → Identity
  tool_identity (s, m) = record {
    name = name_by lib trim_space input_schema cfg.tool_name s m;
    procedure = procedure_of s m;
    method = m;
  }

  -- the loop has added the tools of the pairs
  abbrev Adds : List ServerTool → List (Service × Method) → List ServerTool → Type 0
  Adds tools pairs ts = map identity ts ≡ map identity tools ++ map tool_identity pairs

  then-Adds :
      (a b c : List ServerTool) (ps qs : List (Service × Method))
      → Adds a ps b
      → Adds b qs c
      → Adds a (ps ++ qs) c
  then-Adds a b c ps qs h k =
      k
      ∙ ap (λ l. l ++ map tool_identity qs) h
      ∙ append_assoc (map identity a) (map tool_identity ps) (map tool_identity qs)
      ∙ ap (λ l. map identity a ++ l) (sym (map_append tool_identity ps qs))

  tool_of-identity :
      (s : Service) (m : Method) (t : ServerTool)
      → tool_of lib trim_space input_schema cfg s m ≡ ok t
      → identity t ≡ tool_identity (s, m)
  unfolding tool_of
  tool_of-identity s m t h = let (raw, _, e) = bind-eq-ok (input_schema cfg.string64 m) _ h in cc

  Adds-nothing :
      (tools ts : List ServerTool)
      → ◌≡◌ {A = Result String (List ServerTool)} (ok tools) (ok ts)
      → Adds tools [] ts
  Adds-nothing tools ts h = cc (append_nil (map identity tools))

  tools_of_methods-Adds :
      (s : Service) (ms : List Method) (tools ts : List ServerTool)
      → tools_of_methods lib trim_space input_schema cfg s ms tools ≡ ok ts
      → Adds tools
          (with_service cfg.services cfg.method_filter s
            (exposed_of cfg.services cfg.method_filter ms))
          ts
  unfolding tools_of_methods exposed_of
  tools_of_methods-Adds s [] tools ts h = Adds-nothing tools ts h
  tools_of_methods-Adds s (m ∷ ms) tools ts h =
      go (λ us k. tools_of_methods-Adds s ms us ts k) (exposed cfg.method_filter m)
        (subst
          (λ b.
            (if b
              then (tool_of lib trim_space input_schema cfg s m >>= λ t.
                  tools_of_methods lib trim_space input_schema cfg s ms (tools ++ t ∷ []))
              else tools_of_methods lib trim_space input_schema cfg s ms tools)
            ≡ ok ts)
          (offered-exposed cfg.method_filter m) h)
    where
      rest : List Method
      rest = exposed_of cfg.services cfg.method_filter ms

      go :
          ((us : List ServerTool)
            → tools_of_methods lib trim_space input_schema cfg s ms us ≡ ok ts
            → Adds us (with_service cfg.services cfg.method_filter s rest) ts)
          → (b : Bool)
          → (if b
              then (tool_of lib trim_space input_schema cfg s m >>= λ t.
                  tools_of_methods lib trim_space input_schema cfg s ms (tools ++ t ∷ []))
              else tools_of_methods lib trim_space input_schema cfg s ms tools)
            ≡ ok ts
          → Adds tools
              (with_service cfg.services cfg.method_filter s (if b then m ∷ rest else rest))
              ts
      go again true h =
          let (t, made, later) = bind-eq-ok (tool_of lib trim_space input_schema cfg s m) _ h in
          then-Adds tools (tools ++ t ∷ []) ts ((s, m) ∷ [])
            (with_service cfg.services cfg.method_filter s rest)
            (map_append identity tools (t ∷ [])
              ∙ ap (λ i. map identity tools ++ i ∷ []) (tool_of-identity s m t made))
            (again (tools ++ t ∷ []) later)
      go again false h = again tools h

  tools_of_services-Adds :
      (ss : List Service) (tools ts : List ServerTool)
      → tools_of_services lib trim_space input_schema cfg ss tools ≡ ok ts
      → Adds tools (exposed_pairs cfg.services cfg.method_filter ss) ts
  unfolding tools_of_services exposed_pairs
  tools_of_services-Adds [] tools ts h = Adds-nothing tools ts h
  tools_of_services-Adds (s ∷ ss) tools ts h =
      go (λ us k. tools_of_services-Adds ss us ts k) (selected cfg.services s) h
    where
      here : List (Service × Method)
      here =
          with_service cfg.services cfg.method_filter s
            (exposed_of cfg.services cfg.method_filter s.methods)

      rest : List (Service × Method)
      rest = exposed_pairs cfg.services cfg.method_filter ss

      go :
          ((us : List ServerTool)
            → tools_of_services lib trim_space input_schema cfg ss us ≡ ok ts
            → Adds us rest ts)
          → (b : Bool)
          → (if b
              then (tools_of_methods lib trim_space input_schema cfg s s.methods tools >>= λ us.
                  tools_of_services lib trim_space input_schema cfg ss us)
              else tools_of_services lib trim_space input_schema cfg ss tools)
            ≡ ok ts
          → Adds tools (if b then here ++ rest else rest) ts
      go again true h =
          let (us, made, later) =
            bind-eq-ok (tools_of_methods lib trim_space input_schema cfg s s.methods tools) _ h in
          then-Adds tools us ts here rest (tools_of_methods-Adds s s.methods tools us made)
            (again us later)
      go again false h = again tools h

  -- the descriptor of a file has the services of the file
  abbrev pub IsFaithful : Type 0
  IsFaithful = (f : FileProto) (reg : R) (d : FileProto) → lib.new_file f reg ≡ ok d → d ≡ f

  tools_of_files-Adds :
      IsFaithful
      → (fs : List FileProto) (reg : R) (tools ts : List ServerTool)
      → tools_of_files lib trim_space input_schema cfg fs reg tools ≡ ok ts
      → Adds tools (exposed_in cfg.services cfg.method_filter fs) ts
  unfolding tools_of_files exposed_in
  tools_of_files-Adds faithful [] reg tools ts h = Adds-nothing tools ts h
  tools_of_files-Adds faithful (f ∷ fs) reg tools ts h =
      let (d, described, h') = bind-eq-ok (lib.new_file f reg) _ h in
      let (reg', _, h'') =
        bind-eq-ok (register_new lib trim_space input_schema reg d)
          (λ next. tools_of_services lib trim_space input_schema cfg d.services tools >>= λ us.
            tools_of_files lib trim_space input_schema cfg fs next us)
          h' in
      let (us, made, later) =
        bind-eq-ok (tools_of_services lib trim_space input_schema cfg d.services tools)
          (λ us. tools_of_files lib trim_space input_schema cfg fs reg' us) h'' in
      then-Adds tools us ts (exposed_pairs cfg.services cfg.method_filter f.services)
        (exposed_in cfg.services cfg.method_filter fs)
        (subst (λ x. Adds tools (exposed_pairs cfg.services cfg.method_filter x.services) us)
          (faithful f reg d described) (tools_of_services-Adds d.services tools us made))
        (tools_of_files-Adds faithful fs reg' us ts later)

  pub tools-nothing :
      (ts : List ServerTool)
      → cfg.descriptors ≡ none
      → tools lib trim_space input_schema cfg ≢ ok ts
  unfolding tools
  tools-nothing ts absent h =
      let e = ap (tools_of lib trim_space input_schema cfg) (sym absent) ∙ h in cc

  -- If `Tools` succeeds, its tools are, in order, one for each method of a selected service that does
  -- not stream and that the filter passes, under the tool's name, with the path of the procedure and
  -- the method itself; there is at least one file. This assumes that the descriptor which protodesc
  -- builds of a file has the services of the file.
  pub tools-exposed :
      (fds : List FileProto) (ts : List ServerTool)
      → IsFaithful
      → cfg.descriptors ≡ some fds
      → tools lib trim_space input_schema cfg ≡ ok ts
      → (fds ≢ [])
        × (map identity ts ≡ map tool_identity (exposed_in cfg.services cfg.method_filter fds))
  unfolding tools
  tools-exposed fds ts faithful given h = go cfg.descriptors given h
    where
      go :
          (o : Option (List FileProto))
          → o ≡ some fds
          → tools_of lib trim_space input_schema cfg o ≡ ok ts
          → (fds ≢ [])
            × (map identity ts ≡ map tool_identity (exposed_in cfg.services cfg.method_filter fds))
      go none e k = cc
      go (some []) e k = cc
      go (some (f ∷ fs)) e k =
          let e' : f ∷ fs ≡ fds = cc in
          subst
            (λ l.
              (l ≢ [])
              × (map identity ts ≡ map tool_identity (exposed_in cfg.services cfg.method_filter l)))
            e' (λ gone. cc, tools_of_files-Adds faithful (f ∷ fs) lib.empty [] ts k)
