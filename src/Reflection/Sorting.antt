-- ===== src/Reflection/Sorting.antt =====
-- The induction over the calls of `topSort`, with the fuel that is left to each.
use grpcmcp.Base.{
  ℕ, zero, suc, ◌<◌, String, ◌≡◌, refl, ap, ◌∙◌, inl, inr, false, List, [], ◌∷◌, arith, contains,
  Has, Has-cons, Has-head, Has-tail, lookup, Bool-cases, Option-cases,
}
use grpcmcp.Descriptor.{FileProto}
use grpcmcp.Reflection.{Files, Progress, mark, emit, Outcome, done, visit, top_sort}
use grpcmcp.Reflection.Step.{
  IsKeyed, Holds, Step, Step-refl, Step-trans, Step-emit, mark-IsSound, emit-IsSound, unseen,
  unseen-mark, unseen_mono,
}
use grpcmcp.Reflection.Contract.{
  Ends, Ends-bind, Ends-map, DepsFirst-concat, IsSettled, Step-IsSettled, Sorted, Visited,
}

module _ (rank : String → ℕ) (all : Files) (keyed : IsKeyed all) where
  Visited-nil : (d : FileProto) (s : Progress) → Visited rank all d [] s s
  unfolding contains
  Visited-nil d s = record {
    step = Step-refl s;
    sound = λ h. h;
    reached = λ x h. cc;
    ordered = λ _ _ h. h;
  }

  Visited-cons :
      (d v : FileProto) (dep : String) (deps : List String) {s t u : Progress}
      → Holds all d
      → v.name ≡ dep
      → Has d.dependency dep
      → Sorted rank all v s t
      → Visited rank all d deps t u
      → Visited rank all d (dep ∷ deps) s u
  Visited-cons d v dep deps {s} {t} {u} held own needed a b = record {
    step = Step-trans a.step b.step;
    sound = λ h. b.sound (a.sound h);
    reached = λ x h. elim (Has-cons deps dep x h) [
      | inl same ↦ b.step.seen_grows x (rw (own ∙ same) at a.reached)
      | inr later ↦ b.reached x later
    ];
    ordered = λ r settled first. b.ordered r (Step-IsSettled rank (rank d.name) a.step settled) (
        a.ordered r (λ x k lt. settled x k (omega (arith, r d held dep needed, ap rank own)))
          first);
  }

  mark-IsSettled :
      (d : FileProto) (s : Progress)
      → IsSettled rank (suc (rank d.name)) s
      → IsSettled rank (rank d.name) (mark d s)
  mark-IsSettled d s h x k lt = elim (Has-cons s.seen d.name x k) [
    | inl same ↦ absurd (omega (arith, ap rank same))
    | inr old ↦ h x old (omega arith)
  ]

  Sorted-emit :
      (d : FileProto) {s t : Progress}
      → Holds all d
      → contains s.seen d.name ≡ false
      → Visited rank all d d.dependency (mark d s) t
      → Sorted rank all d s (emit d t)
  Sorted-emit d {s} {t} held new a = record {
    step = Step-emit d new a.step;
    sound = λ h. emit-IsSound d held new h a.step (a.sound (mark-IsSound d h));
    reached = a.step.seen_grows d.name (Has-head s.seen d.name);
    ordered = λ r settled first.
        let before = mark-IsSettled d s settled in
        DepsFirst-concat [] t.ds d (a.ordered r before first) (λ x dep.
          inr
            (Step-IsSettled rank (rank d.name) a.step before x (a.reached x dep) (r d held x dep)));
  }

  Sorted-seen : (d : FileProto) (s : Progress) → Has s.seen d.name → Sorted rank all d s s
  Sorted-seen d s old = record {
    step = Step-refl s;
    sound = λ h. h;
    reached = old;
    ordered = λ _ _ h. h;
  }

  -- a call that keeps its contract wherever fewer than `n` keys are unseen
  abbrev Keeps : ℕ → (FileProto → Progress → Outcome) → Type 0
  Keeps n sort =
      (v : FileProto) (s : Progress)
      → Holds all v
      → unseen all s.seen < n
      → Ends all (Sorted rank all v s) (sort v s)

  still_fits : {n : ℕ} {s t : Progress} → Step s t → unseen all s.seen < n → unseen all t.seen < n
  still_fits {s} {t} st fits = omega (arith, unseen_mono all s.seen t.seen st.seen_grows)

  visit-Ends :
      (n : ℕ) (sort : FileProto → Progress → Outcome)
      → Keeps n sort
      → (d : FileProto) → Holds all d
      → (deps : List String) → ((x : String) → Has deps x → Has d.dependency x)
      → (s : Progress) → unseen all s.seen < n
      → Ends all (Visited rank all d deps s) (visit sort all d deps s)
  unfolding visit
  visit-Ends n sort keeps d held [] within s fits = Visited-nil d s
  visit-Ends n sort keeps d held (dep ∷ deps) within s fits = elim (Option-cases (lookup dep all)) [
    | inl gone ↦ rw gone (d, held, refl, within dep (Has-head deps dep), gone)
    | inr (v, found) ↦
        let own = keyed dep v found in
        rw found (
          Ends-bind all (Sorted rank all v s) (Visited rank all d (dep ∷ deps) s) (sort v s)
            (visit sort all d deps) (keeps v s (ap (λ k. lookup k all) own ∙ found) fits)
            (λ t a.
              Ends-map all (Visited rank all d deps t) (Visited rank all d (dep ∷ deps) s)
                (visit sort all d deps t)
                (λ u b. Visited-cons d v dep deps held own (within dep (Has-head deps dep)) a b)
                (visit-Ends n sort keeps d held deps (λ x h. within x (Has-tail deps dep x h)) t
                  (still_fits a.step fits))))
  ]

  -- With more fuel than unseen keys, `topSort` keeps its contract.
  pub top_sort-Ends : (fuel : ℕ) → Keeps fuel (top_sort fuel all)
  unfolding top_sort
  top_sort-Ends zero d s held fits = elim fits [ ]
  top_sort-Ends (suc fuel) d s held fits = elim (Bool-cases (contains s.seen d.name)) [
    | inl old ↦ rw old (Sorted-seen d s old)
    | inr new ↦ rw new (
        Ends-bind all (Visited rank all d d.dependency (mark d s)) (Sorted rank all d s)
          (visit (top_sort fuel all) all d d.dependency (mark d s)) (λ t. done (emit d t))
          (visit-Ends fuel (top_sort fuel all) (top_sort-Ends fuel) d held d.dependency (λ x h. h)
            (mark d s) (omega (arith, unseen-mark all s.seen d.name held new)))
          (λ t a. Sorted-emit d held new a))
  ]
