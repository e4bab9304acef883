-- ===== src/Reflection/Replies.antt =====
-- `LoadDescriptorsFromReflection` against the replies of the stream: which of their files it returns,
-- and how it ends where it fails.
use mathlib.Core.Path.{subst}
use mathlib.Core.List.{Memᴰ}
use grpcmcp.Base.{
  String, ◌≡◌, ◌≢◌, ◌↔◌, ◌⊎◌, refl, sym, ap, inl, inr, none, some, List, [], ◌∷◌, arith, All, Has,
  NoDup, lookup, insert, lookup-insert, eq_refl, ◌==◌, Bool-cases, Option-cases, ◌∙◌,
}
use grpcmcp.Base.Results.{Result, ok, err, Result-cases, bind-eq-ok}
use grpcmcp.Descriptor.{FileProto}
use grpcmcp.Reflection.{
  Files, missing, stream, Progress, Outcome, done, failed, out_of_fuel, attempt, start, collect,
  gather, load_descriptors,
}
use grpcmcp.Reflection.Contract.{Ends}
use grpcmcp.Reflection.Loading.{IsListing, gather-IsKeyed, Listed}
use grpcmcp.Reflection.Results.{
  IsDescriptorSet, Listed-IsDescriptorSet, load-IsDescriptorSet, load-Ends,
}
use grpcmcp.Reflection.Step.{names, Holds}

collect-held :
    (files : List FileProto) (all : Files) (k : String) (v : FileProto)
    → lookup k (collect files all) ≡ some v
    → Memᴰ v files ⊎ (lookup k all ≡ some v)
unfolding collect
collect-held [] all k v h = inr h
collect-held (d ∷ rest) all k v h = elim (collect-held rest (insert d.name d all) k v h) [
  | inl later ↦ inl (Memᴰ.tail later)
  | inr here ↦ elim (Bool-cases (d.name == k)) [
    | inl same ↦
        let held : some d ≡ some v = ground (arith, here, lookup-insert d.name k d all, same) in
        inl (Memᴰ.head cc)
    | inr other ↦ inr (ground (arith, here, lookup-insert d.name k d all, other))
  ]
]

collect-keeps :
    (files : List FileProto) (all : Files) (k : String)
    → lookup k all ≢ none
    → lookup k (collect files all) ≢ none
unfolding collect
collect-keeps [] all k h = h
collect-keeps (d ∷ rest) all k h =
    collect-keeps rest (insert d.name d all) k
      (λ gone. ground (arith, gone, h, lookup-insert d.name k d all))

collect-adds :
    (files : List FileProto) (all : Files) (d : FileProto)
    → Memᴰ d files
    → lookup d.name (collect files all) ≢ none
unfolding collect
collect-adds [] all d member = elim member [ ]
collect-adds (f ∷ rest) all d (Memᴰ.head e) =
    collect-keeps rest (insert f.name f all) d.name (λ gone.
      ground (arith, gone, lookup-insert f.name d.name f all, ap (λ x. x.name) e, eq_refl f.name))
collect-adds (f ∷ rest) all d (Memᴰ.tail later) = collect-adds rest (insert f.name f all) d later

module _ (reply : String → Result String (List FileProto)) where
  -- the file is in the reply to one of the services
  abbrev pub IsReplied : List String → FileProto → Type 0
  IsReplied services d =
      (name : String) × Memᴰ name services
      × ((files : List FileProto) × (reply name ≡ ok files) × Memᴰ d files)

  gather-held :
      (services : List String) (before all : Files) (k : String) (v : FileProto)
      → gather reply services before ≡ ok all
      → lookup k all ≡ some v
      → IsReplied services v ⊎ (lookup k before ≡ some v)
  unfolding gather
  gather-held [] before all k v e h = inr (ground (arith, e, h))
  gather-held (name ∷ more) before all k v e h =
      let (files, replied, rest) = bind-eq-ok (reply name) _ e in
      elim (gather-held more (collect files before) all k v rest h) [
        | inl (other, there, found) ↦ inl (other, Memᴰ.tail there, found)
        | inr here ↦ elim (collect-held files before k v here) [
          | inl member ↦ inl (name, Memᴰ.head refl, (files, replied, member))
          | inr old ↦ inr old
        ]
      ]

  gather-keeps :
      (services : List String) (before all : Files) (k : String)
      → gather reply services before ≡ ok all
      → lookup k before ≢ none
      → lookup k all ≢ none
  unfolding gather
  gather-keeps [] before all k e h = λ gone. h (ground (arith, e, gone))
  gather-keeps (name ∷ more) before all k e h =
      let (files, replied, rest) = bind-eq-ok (reply name) _ e in
      gather-keeps more (collect files before) all k rest (collect-keeps files before k h)

  gather-adds :
      (services : List String) (before all : Files) (d : FileProto)
      → gather reply services before ≡ ok all
      → IsReplied services d
      → lookup d.name all ≢ none
  unfolding gather
  gather-adds [] before all d e (name, there, found) = elim there [ ]
  gather-adds (s ∷ more) before all d e (name, Memᴰ.head same, (files, replied, member)) =
      let (got, answered, rest) = bind-eq-ok (reply s) _ e in
      let given : ok files ≡ ok got = sym replied ∙ ap reply same ∙ answered in
      let equal : files ≡ got = cc in
      gather-keeps more (collect got before) all d.name rest
        (collect-adds got before d (subst (Memᴰ d) equal member))
  gather-adds (s ∷ more) before all d e (name, Memᴰ.tail there, found) =
      let (got, answered, rest) = bind-eq-ok (reply s) _ e in
      gather-adds more (collect got before) all d rest (name, there, found)

  gather-failed :
      (services : List String) (before : Files) (e : String)
      → gather reply services before ≡ err e
      → (name : String) × Memᴰ name services × (reply name ≡ err e)
  unfolding gather
  gather-failed [] before e h = absurd cc
  gather-failed (name ∷ more) before e h = elim (Result-cases (reply name)) [
    | inl (files, replied) ↦
        let (other, there, broken) =
          gather-failed more (collect files before) e (ground (arith, h, replied)) in
        (other, Memᴰ.tail there, broken)
    | inr (x, broken) ↦
        let same : err x ≡ err e = ground (arith, h, broken) in
        (name, Memᴰ.head refl, broken ∙ same)
  ]

  -- The list has the files of the replies: one for each name that a file of a reply has.
  pub record IsReplySet (services : List String) (ds : List FileProto) : Type 0 where
    pub replied : (d : FileProto) → Memᴰ d ds → IsReplied services d
    pub named :
        (k : String) → Has (names ds) k ↔ ((d : FileProto) × IsReplied services d × (d.name ≡ k))
    pub no_dup : NoDup (names ds)

  all_held :
      (all : Files) (ds : List FileProto) (d : FileProto)
      → All (Holds all) ds
      → Memᴰ d ds
      → Holds all d
  all_held all [] d h member = elim member [ ]
  all_held all (x ∷ ds) d h (Memᴰ.head e) = subst (Holds all) (sym e) h.0
  all_held all (x ∷ ds) d h (Memᴰ.tail later) = all_held all ds d h.1 later

  gathered-held :
      (services : List String) (all : Files) (k : String) (v : FileProto)
      → gather reply services [] ≡ ok all
      → lookup k all ≡ some v
      → IsReplied services v
  unfolding lookup
  gathered-held services all k v e h = elim (gather-held services [] all k v e h) [
    | inl found ↦ found
    | inr old ↦ absurd cc
  ]

  IsDescriptorSet-IsReplySet :
      (services : List String) (all : Files) (ds : List FileProto)
      → gather reply services [] ≡ ok all
      → IsDescriptorSet all ds
      → IsReplySet services ds
  unfolding lookup
  IsDescriptorSet-IsReplySet services all ds e set = record {
    replied = λ d member. gathered-held services all d.name d e (all_held all ds d set.held member);
    named = λ k. (
      λ has. elim (Option-cases (lookup k all)) [
        | inl gone ↦ absurd ((set.names_iff k).0 has gone)
        | inr (v, found) ↦ (
          v,
          gathered-held services all k v e found,
          gather-IsKeyed reply services [] all (λ j w h. cc) e k v found,
        )
      ],
      λ (d, found, same).
          (set.names_iff k).1
            (subst (λ j. lookup j all ≢ none) same (gather-adds services [] all d e found)),
    );
    no_dup = set.no_dup;
  }

module _ (list_services : Result String (List String))
    (reply : String → Result String (List FileProto)) (close : Result String (Unit {0}))
    (iterate : Files → List FileProto) where
  abbrev load : Outcome
  load = load_descriptors list_services reply close iterate

  -- the loop over the map of the replies yields each of its values
  abbrev pub IsRange : Type 0
  IsRange =
      (services : List String) (all : Files)
      → list_services ≡ ok services
      → gather reply services [] ≡ ok all
      → IsListing all (iterate all)

  unlisted : (e : String) → list_services ≡ err e → load ≡ failed (stream e)
  unfolding load_descriptors
  unlisted e broken = rw (broken, attempt) refl

  ungathered :
      (services : List String) (e : String)
      → list_services ≡ ok services
      → gather reply services [] ≡ err e
      → load ≡ failed (stream e)
  unfolding load_descriptors
  ungathered services e listed broken = rw (listed, attempt) (rw (broken, attempt) refl)

  unclosed :
      (services : List String) (all : Files) (e : String)
      → list_services ≡ ok services
      → gather reply services [] ≡ ok all
      → close ≡ err e
      → load ≡ failed (stream e)
  unfolding load_descriptors
  unclosed services all e listed gathered broken =
      rw (listed, attempt) (rw (gathered, attempt) (rw (broken, attempt) refl))

  -- A load that succeeds returns, for each name that a file of a reply has, one such file, and nothing
  -- else: the replies are those to the services that are listed. The loop over the map of the replies
  -- is assumed to yield each of its values.
  pub load-IsReplySet :
      (services : List String) (t : Progress)
      → IsRange
      → list_services ≡ ok services
      → load ≡ done t
      → IsReplySet reply services t.ds
  load-IsReplySet services t ranged listed h = elim (Result-cases (gather reply services [])) [
    | inl (all, gathered) ↦ IsDescriptorSet-IsReplySet reply services all t.ds gathered (
        load-IsDescriptorSet list_services reply close iterate listed gathered
          (ranged services all listed gathered) h)
    | inr (e, broken) ↦ cc (ungathered services e listed broken)
  ]

  -- a call of the stream has this error
  abbrev pub Breaks : String → Type 0
  Breaks e =
      (list_services ≡ err e)
      ⊎ ((services : List String) × (list_services ≡ ok services)
          × ((name : String) × Memᴰ name services × (reply name ≡ err e)))
      ⊎ (close ≡ err e)

  -- a file of the replies depends on one that no reply has
  abbrev pub Lacks : String → String → Type 0
  Lacks file dep =
      (services : List String) × (list_services ≡ ok services)
      × ((d : FileProto) × IsReplied reply services d × (d.name ≡ file) × Has d.dependency dep)
      × ((x : FileProto) → IsReplied reply services x → x.name ≢ dep)

  abbrev pub Explained : Outcome → Type 0
  Explained (done t) =
      (services : List String) × (list_services ≡ ok services)
      × (close ≡ ok tt)
      × IsReplySet reply services t.ds
  Explained (failed (stream e)) = Breaks e
  Explained (failed (missing file dep)) = Lacks file dep
  Explained out_of_fuel = ⊥

  Ends-Explained :
      (services : List String) (all : Files)
      → list_services ≡ ok services
      → gather reply services [] ≡ ok all
      → close ≡ ok tt
      → (P : Progress → Type 0) → ((t : Progress) → P t → IsReplySet reply services t.ds)
      → (o : Outcome) → Ends all P o
      → Explained o
  Ends-Explained services all listed gathered closed P good (done t) h =
      (services, listed, closed, good t h)
  Ends-Explained services all listed gathered closed P good (failed (stream e)) h = absurd h
  Ends-Explained services all listed gathered closed P good (failed (missing file dep))
        (d, held, named, needs, gone) =
      (
        services,
        listed,
        (d, gathered-held reply services all d.name d gathered held, named, needs),
        λ x found same.
            gather-adds reply services [] all x gathered found (ap (λ j. lookup j all) same ∙ gone),
      )
  Ends-Explained services all listed gathered closed P good out_of_fuel h = absurd h

  -- A load ends. It succeeds only where the stream closes without an error, and with the files of the
  -- replies, one for each name. It fails by an error of the stream only with the error of the list of
  -- services, of the reply to one of them, or of the stream's end; and by a missing file only where a
  -- file of a reply depends on one that no reply has. The loop over the map of the replies is assumed
  -- to yield each of its values.
  pub load-Explained : IsRange → Explained load
  load-Explained ranged = elim (Result-cases list_services) [
    | inr (e, broken) ↦ subst Explained (sym (unlisted e broken)) (inl broken)
    | inl (services, listed) ↦ elim (Result-cases (gather reply services [])) [
      | inr (e, broken) ↦
          subst Explained (sym (ungathered services e listed broken))
            (inr (inl (services, listed, gather-failed reply services [] e broken)))
      | inl (all, gathered) ↦ elim (Result-cases close) [
        | inr (e, broken) ↦
            subst Explained (sym (unclosed services all e listed gathered broken))
              (inr (inr broken))
        | inl (u, closed) ↦
            Ends-Explained services all listed gathered closed (Listed all (iterate all) start)
              (λ t a. IsDescriptorSet-IsReplySet reply services all t.ds gathered (
                Listed-IsDescriptorSet all (iterate all) t (ranged services all listed gathered) a))
              load
              (load-Ends list_services reply close iterate listed gathered
                (ranged services all listed gathered) closed)
      ]
    ]
  ]
