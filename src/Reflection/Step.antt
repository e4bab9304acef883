-- ===== src/Reflection/Step.antt =====
-- What one call of `topSort` does to the shared progress, and how such steps compose.
use grpcmcp.Base.{
  ℕ, ◌+◌, ◌≤◌, ◌<◌, String, ◌≡◌, refl, ap, ◌⊎◌, inl, inr, Bool, true, false, some, List, [], ◌∷◌,
  ◌++◌, arith, length, All, All-append, contains, Has, Has-cons, Has-head, Has-tail, Has-append,
  Has-append_left, Has-append_right, NoDup, NoDup-concat, lookup, if◌then◌else◌, Bool-cases, eq_iff,
  eq_refl, ◌==◌,
}
use grpcmcp.Descriptor.{FileProto}
use grpcmcp.Reflection.{Files, Progress, mark, emit}

abbrev pub names : List FileProto → List String
names [] = []
names (d ∷ ds) = d.name ∷ names ds

pub names-append : (ds es : List FileProto) → names (ds ++ es) ≡ names ds ++ names es
names-append [] es = refl
names-append (d ∷ ds) es = ap (λ l. d.name ∷ l) (names-append ds es)

-- every file is stored under its own name
abbrev pub IsKeyed : Files → Type 0
IsKeyed all = (k : String) (v : FileProto) → lookup k all ≡ some v → v.name ≡ k

-- the file is one of those that the map holds
abbrev pub Holds : Files → FileProto → Type 0
Holds all d = lookup d.name all ≡ some d

pub record Step (s t : Progress) : Type 0 where
  pub seen_grows : (x : String) → Has s.seen x → Has t.seen x
  pub ds_grows : (x : String) → Has (names s.ds) x → Has (names t.ds) x
  -- what is newly seen has been emitted
  pub settled : (x : String) → Has t.seen x → Has s.seen x ⊎ Has (names t.ds) x
  -- what was seen before is not emitted now
  pub fresh : (x : String) → Has s.seen x → Has (names t.ds) x → Has (names s.ds) x

pub Step-refl : (s : Progress) → Step s s
Step-refl s = record {
  seen_grows = λ x h. h;
  ds_grows = λ x h. h;
  settled = λ x h. inl h;
  fresh = λ x h k. k;
}

settled-trans :
    {s t u : Progress}
    → Step s t
    → Step t u
    → (x : String) → Has t.seen x ⊎ Has (names u.ds) x
    → Has s.seen x ⊎ Has (names u.ds) x
settled-trans a b x (inr k) = inr k
settled-trans {u} a b x (inl h) = elim (a.settled x h) [
  | inl old ↦ inl old
  | inr out ↦ inr (b.ds_grows x out)
]

pub Step-trans : {s t u : Progress} → Step s t → Step t u → Step s u
Step-trans a b = record {
  seen_grows = λ x h. b.seen_grows x (a.seen_grows x h);
  ds_grows = λ x h. b.ds_grows x (a.ds_grows x h);
  settled = λ x h. settled-trans a b x (b.settled x h);
  fresh = λ x h k. a.fresh x h (b.fresh x (a.seen_grows x h) k);
}

-- What holds of the progress between the calls of the loader.
pub record IsSound (all : Files) (s : Progress) : Type 0 where
  pub emitted_seen : (x : String) → Has (names s.ds) x → Has s.seen x
  pub no_dup : NoDup (names s.ds)
  pub from_all : All (Holds all) s.ds

emit_old :
    (d : FileProto) (t : Progress) (x : String) → Has (names t.ds) x → Has (names (emit d t).ds) x
emit_old d t x h = rw names-append (Has-append_left (names t.ds) (d.name ∷ []) x h)

pub emit_self : (d : FileProto) (t : Progress) → Has (names (emit d t).ds) d.name
emit_self d t =
    rw names-append (Has-append_right (names t.ds) (d.name ∷ []) d.name (Has-head [] d.name))

emit_cases :
    (d : FileProto) (t : Progress) (x : String)
    → Has (names (emit d t).ds) x
    → Has (names t.ds) x ⊎ (d.name ≡ x)
unfolding contains
emit_cases d t x h = elim (Has-append (names t.ds) (d.name ∷ []) x (rw names-append at h)) [
  | inl old ↦ inl old
  | inr new ↦ inr (ground (arith, eq_iff d.name x))
]

not_both : {b : Bool} → b ≡ true → b ≡ false → ⊥
not_both h k = cc

-- Marking a file, sorting what it depends on, and emitting it is one step.
pub Step-emit :
    (d : FileProto) {s t : Progress}
    → contains s.seen d.name ≡ false
    → Step (mark d s) t
    → Step s (emit d t)
Step-emit d {s} {t} new st = record {
  seen_grows = λ x h. st.seen_grows x (Has-tail s.seen d.name x h);
  ds_grows = λ x h. emit_old d t x (st.ds_grows x h);
  settled = λ x h. go x (st.settled x h);
  fresh = λ x h k. elim (emit_cases d t x k) [
    | inl old ↦ st.fresh x (Has-tail s.seen d.name x h) old
    | inr same ↦ absurd (not_both (rw (← same) at h) new)
  ];
}
  where
    of_seen :
        (x : String) → (d.name ≡ x) ⊎ Has s.seen x → Has s.seen x ⊎ Has (names (emit d t).ds) x
    of_seen x (inl same) = inr (rw (← same) (emit_self d t))
    of_seen x (inr old) = inl old

    go :
        (x : String)
        → Has (d.name ∷ s.seen) x ⊎ Has (names t.ds) x
        → Has s.seen x ⊎ Has (names (emit d t).ds) x
    go x (inl h) = of_seen x (Has-cons s.seen d.name x h)
    go x (inr out) = inr (emit_old d t x out)

pub mark-IsSound :
    {all : Files} (d : FileProto) {s : Progress} → IsSound all s → IsSound all (mark d s)
mark-IsSound d {s} h = record {
  emitted_seen = λ x k. Has-tail s.seen d.name x (h.emitted_seen x k);
  no_dup = h.no_dup;
  from_all = h.from_all;
}

-- A file that was new when it was marked is emitted once.
pub emit-IsSound :
    {all : Files} (d : FileProto) {s t : Progress}
    → Holds all d
    → contains s.seen d.name ≡ false
    → IsSound all s
    → Step (mark d s) t
    → IsSound all t
    → IsSound all (emit d t)
emit-IsSound {all} d {s} {t} held new before st h = record {
  emitted_seen = λ x k. elim (emit_cases d t x k) [
    | inl old ↦ h.emitted_seen x old
    | inr same ↦ rw (← same) (st.seen_grows d.name (Has-head s.seen d.name))
  ];
  no_dup = rw names-append (
      NoDup-concat (names t.ds) d.name h.no_dup (elim (Bool-cases (contains (names t.ds) d.name)) [
        | inl twice ↦ absurd (
            not_both (before.emitted_seen d.name (st.fresh d.name (Has-head s.seen d.name) twice))
              new)
        | inr once ↦ once
      ]));
  from_all = All-append (Holds all) t.ds (d ∷ []) h.from_all (held, tt);
}

-- How many of the map's keys have not been seen: the depth that is left to the recursion.
pub unseen : Files → List String → ℕ
unseen [] seen = 0
unseen ((k, v) ∷ all) seen = (if contains seen k then 0 else 1) + unseen all seen

pub unseen-le-length : (all : Files) (seen : List String) → unseen all seen ≤ length all
unfolding unseen
unseen-le-length [] seen = omega arith
unseen-le-length ((k, v) ∷ all) seen = ground (arith, unseen-le-length all seen)

pub unseen_mono :
    (all : Files) (seen more : List String)
    → ((x : String) → Has seen x → Has more x)
    → unseen all more ≤ unseen all seen
unfolding unseen
unseen_mono [] seen more h = omega arith
unseen_mono ((k, v) ∷ all) seen more h = ground (arith, h k, unseen_mono all seen more h)

pub unseen-mark :
    (all : Files) (seen : List String) (x : String) {d : FileProto}
    → lookup x all ≡ some d
    → contains seen x ≡ false
    → unseen all (x ∷ seen) < unseen all seen
unfolding unseen lookup contains
unseen-mark [] seen x h new = cc
unseen-mark ((k, v) ∷ all) seen x {d} h new = elim (Bool-cases (k == x)) [
  | inl same ↦
      ground
        (arith, eq_iff k x, eq_refl x, unseen_mono all seen (x ∷ seen) (λ y. Has-tail seen x y))
  | inr other ↦
      ground (arith, eq_iff k x, eq_iff x k, unseen-mark all seen x {d = d} (rw other at h) new)
]
