-- ===== src/Canvas/Store/Shown.antt =====
-- The rows of a listing are the artifacts that are to be shown.
use theokit_plugins.Common.{
  ◌≤◌, String, Bool, true, Option, none, some, List, [], ◌∷◌, last, ◌≡◌, ◌↔◌, refl, sym, ap, subst,
  arith, All, inl, inr, Bool-cases, string_eq, ◌==◌, beq_self,
}
use theokit_plugins.Common.Assoc.{Assoc, get}
use theokit_plugins.Common.Sort.{last-max}
use theokit_plugins.Canvas.Artifact.{Artifact, Kind, kind_of}
use theokit_plugins.Canvas.Store.{
  ById, ListFilter, ListMode, latest, every, or_else, one_of, candidates, mem_matches_filter, rank,
  session_is, wanted_session, wanted_kind,
}
use theokit_plugins.Canvas.Store.Invariant.{IsStored, IsBucket}
use theokit_plugins.Canvas.Store.Rows.{In, IsRow}

rank-injective : (k l : Kind) → rank k ≡ rank l → k ≡ l
rank-injective k l h = ground arith

-- What the filter asks of a row, each part only if the filter has it.
pub record IsWanted (f : ListFilter) (a : Artifact) : Type 0 where
  pub of_session : (s : String) → f.session_id ≡ some s → a.session_id ≡ some s
  pub of_kind : (k : Kind) → f.kind ≡ some k → kind_of a.payload ≡ k

wanted_session-eq : (o : Option String) (s : String) → session_is s o ≡ true → o ≡ some s
wanted_session-eq none s h = cc
wanted_session-eq (some t) s h = ap some ((string_eq.beq_iff t s).0 h)

matches-IsWanted : (f : ListFilter) (a : Artifact) → mem_matches_filter f a ≡ true → IsWanted f a
unfolding mem_matches_filter
matches-IsWanted f a h = record {
  of_session = λ s e. wanted_session-eq a.session_id s (ground arith);
  of_kind = λ k e. rank-injective (kind_of a.payload) k (ground arith);
}

in_session :
    (o : Option String) (a : Artifact)
    → ((s : String) → o ≡ some s → a.session_id ≡ some s)
    → wanted_session o a ≡ true
in_session none a h = refl
in_session (some s) a h = rw (h s refl) (beq_self s)

of_that_kind :
    (o : Option Kind) (a : Artifact)
    → ((k : Kind) → o ≡ some k → kind_of a.payload ≡ k)
    → wanted_kind o a ≡ true
of_that_kind none a h = refl
of_that_kind (some k) a h = rw (h k refl) (ground arith)

IsWanted-matches : (f : ListFilter) (a : Artifact) → IsWanted f a → mem_matches_filter f a ≡ true
unfolding mem_matches_filter
IsWanted-matches f a v =
    rw (in_session f.session_id a v.of_session) (of_that_kind f.kind a v.of_kind)

-- A `Map` has each key once.
abbrev pub IsMap : {V : Type 0} → Assoc String V → Type 0
IsMap [] = Unit
IsMap ((k, v) ∷ m) = (get k m ≡ none) × IsMap m

pub get-In : {V : Type 0} (m : Assoc String V) (k : String) (v : V) → get k m ≡ some v → In (k, v) m
unfolding get
get-In [] k v e = cc
get-In ((j, w) ∷ m) k v e = elim (Bool-cases (j == k)) [
  | inl same ↦ inl (ground (arith, string_eq.beq_iff j k))
  | inr other ↦ inr (get-In m k v (ground arith))
]

pub In-get :
    {V : Type 0} (m : Assoc String V) (k : String) (v : V)
    → IsMap m
    → In (k, v) m
    → get k m ≡ some v
unfolding get
In-get [] k v u h = absurd h
In-get ((j, w) ∷ m) k v (alone, u) (inl e) =
    let same : j ≡ k = ap (λ z. z.0) e in
    let value : w ≡ v = ap (λ z. z.1) e in rw (same, beq_self k) (ap some value)
In-get ((j, w) ∷ m) k v (alone, u) (inr h) =
    let there = In-get m k v u h in ground (arith, there, alone, string_eq.beq_iff j k)

pub All-In : {A : Type 0} (P : A → Type 0) (a : A) (xs : List A) → All P xs → In a xs → P a
All-In P a [] h e = absurd e
All-In P a (x ∷ xs) (p, h) (inl e) = subst P e p
All-In P a (x ∷ xs) (p, h) (inr e) = All-In P a xs h e

last-In : {A : Type 0} (a : A) (xs : List A) → last xs ≡ some a → In a xs
last-In a [] e = cc
last-In a (x ∷ []) e = inl (ground arith)
last-In a (x ∷ y ∷ xs) e = inr (last-In a (y ∷ xs) e)

-- Of the versions of an id, the last alone, which no other version is above, or each.
abbrev pub IsPicked : ListMode → List Artifact → Artifact → Type 0
IsPicked latest vs a = (last vs ≡ some a) × All (λ b. b.version ≤ a.version) vs
IsPicked every vs a = In a vs

one_of-last : (a : Artifact) (o : Option Artifact) → In a (one_of o) ↔ (o ≡ some a)
one_of-last a none = ((λ h. absurd h), (λ h. cc))
one_of-last a (some b) =
    ((λ h. elim h [ inl e ↦ ap some e | inr h ↦ absurd h ]), (λ h. inl (ground arith)))

-- What a listing is to show: the artifacts that the filter wants, picked from their ids' versions.
abbrev pub IsShown : ListFilter → ById → Artifact → Type 0
IsShown f by_id a =
    IsWanted f a
    × (vs : List Artifact) × (get a.id by_id ≡ some vs)
    × IsPicked (or_else f.mode latest) vs a

module _ (is_datetime : String → Bool) where
  pub picked :
      (mode : ListMode) (k : String) (vs : List Artifact) (a : Artifact)
      → IsBucket is_datetime k vs
      → In a (candidates mode vs)
      → IsPicked mode vs a × (a.id ≡ k)
  picked latest k vs a b h =
      let e = (one_of-last a (last vs)).0 h in
      (
        (e, last-max (λ x. x.version) vs a b.ordered e),
        All-In (λ x. x.id ≡ k) a vs b.owned (last-In a vs e),
      )
  picked every k vs a b h = (h, All-In (λ x. x.id ≡ k) a vs b.owned h)

  unpicked :
      (mode : ListMode) (vs : List Artifact) (a : Artifact)
      → IsPicked mode vs a
      → In a (candidates mode vs)
  unpicked latest vs a h = (one_of-last a (last vs)).1 h.0
  unpicked every vs a h = h

  pub IsRow-IsShown :
      (f : ListFilter) (by_id : ById) (a : Artifact)
      → IsStored is_datetime by_id
      → IsMap by_id
      → IsRow f by_id a ↔ IsShown f by_id a
  IsRow-IsShown f by_id a v u = (
    (λ (k, vs, e, c, m).
        let b =
          All-In (λ (p : String × List Artifact). IsBucket is_datetime p.0 p.1) (k, vs) by_id v e in
        let (pick, own) = picked (or_else f.mode latest) k vs a b c in
        (
          matches-IsWanted f a m,
          vs,
          subst (λ i. get i by_id ≡ some vs) (sym own) (In-get by_id k vs u e),
          pick,
        )),
    (λ (w, vs, e, pick). (
      a.id,
      vs,
      get-In by_id a.id vs e,
      unpicked (or_else f.mode latest) vs a pick,
      IsWanted-matches f a w,
    )),
  )
