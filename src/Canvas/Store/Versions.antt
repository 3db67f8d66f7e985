-- ===== src/Canvas/Store/Versions.antt =====
-- What the store's reads see of its writes: a finite map from an id and a version to an artifact.
use theokit_plugins.Common.{
  ℕ, String, Bool, true, false, not, Option, none, some, List, [], ◌∷◌, ◌++◌, any, filter, find,
  last, nat_beq, if◌then◌else◌, string_eq, ◌≡◌, ◌≢◌, refl, arith, All, ◌&&◌, Option-cases, inl, inr,
  ◌==◌, beq_self, length, length-filter-le, ◌+◌, ◌<◌, ◌≤◌,
}
use theokit_plugins.Common.Assoc.{get, set, get-set, get-delete}
use theokit_plugins.Common.Async.{returned, threw}
use theokit_plugins.Common.Sort.{find-sort_by, sort_by-Strict_id, Strict-snoc, last-max}
use theokit_plugins.Canvas.Artifact.{Artifact, is_artifact, validate_artifact, not_found}
use theokit_plugins.Canvas.Store.{
  ById, or_empty, has_version, sort_versions, mem_insert, mem_get, mem_next_version, put_versions,
  mem_delete,
}
use theokit_plugins.Canvas.Store.Invariant.{mem_insert-returned, IsStored, bucket-IsRun}

pub find-append :
    (v : ℕ) (vs : List Artifact) (a : Artifact)
    → any (has_version a.version) vs ≡ false
    → find (has_version v) (vs ++ a ∷ [])
      ≡ (if nat_beq a.version v then some a else find (has_version v) vs)
find-append v [] a h = refl
find-append v (b ∷ vs) a h = ground (arith, find-append v vs a)

module _ (is_datetime : String → Bool) where
  -- An insertion that returns makes its artifact readable under its id and version, and changes
  -- no other read by id and version.
  pub mem_get-mem_insert :
      (by_id s : ById) (a b : Artifact) (id : String) (v : ℕ)
      → mem_insert is_datetime by_id a ≡ returned (b, s)
      → mem_get s id (some v)
        ≡ (if a.id == id && nat_beq a.version v then some a else mem_get by_id id (some v))
  unfolding mem_get
  mem_get-mem_insert by_id s a b id v e =
      let (same, ok, new, put) = mem_insert-returned is_datetime by_id s a b e in
      let vs = or_empty (get a.id by_id) in
      rw put (
        ground (
          arith,
          get-set a.id id (sort_versions (vs ++ a ∷ [])) by_id,
          string_eq.beq_iff a.id id,
          find-sort_by (λ (x : Artifact). x.version) v (vs ++ a ∷ []),
          find-append v vs a new,
        ))

  below-any :
      (v : ℕ) (vs : List Artifact) → All (λ a. a.version < v) vs → any (has_version v) vs ≡ false
  below-any v [] h = refl
  below-any v (a ∷ vs) (p, h) = ground (arith, below-any v vs h)

  all-below :
      (n v : ℕ) (vs : List Artifact)
      → n < v
      → All (λ a. a.version ≤ n) vs
      → All (λ a. a.version < v) vs
  all-below n v [] lt h = tt
  all-below n v (a ∷ vs) lt (p, h) = (omega arith, all-below n v vs lt h)

  last-append : (vs : List Artifact) (a : Artifact) → last (vs ++ a ∷ []) ≡ some a
  last-append [] a = refl
  last-append (b ∷ []) a = refl
  last-append (b ∷ c ∷ vs) a = last-append (c ∷ vs) a

  last-some : (b : Artifact) (vs : List Artifact) → last (b ∷ vs) ≢ none
  last-some b [] e = cc
  last-some b (c ∷ vs) e = last-some c vs e

  -- Every version of an id is below the one that `nextVersion` gives.
  mem_next_version-above :
      (by_id : ById) (id : String)
      → IsStored is_datetime by_id
      → All (λ a. a.version < mem_next_version by_id id) (or_empty (get id by_id))
  unfolding mem_next_version
  mem_next_version-above by_id id h =
      let vs = or_empty (get id by_id) in
      elim (Option-cases (last vs)) [
        | inl none_there ↦ empty vs none_there
        | inr (a, found) ↦ rw found (
            all-below a.version (a.version + 1) vs (omega arith) (
              last-max (λ (x : Artifact). x.version) vs a
                (bucket-IsRun is_datetime id by_id h).ordered found))
      ]
    where
      empty :
          (vs : List Artifact)
          → last vs ≡ none
          → All (λ a. a.version < mem_next_version by_id id) vs
      empty [] e = tt
      empty (a ∷ []) e = cc
      empty (a ∷ b ∷ vs) e = absurd (last-some b vs e)

  -- A valid artifact at the version that `nextVersion` gives is stored, and is then the one that
  -- a read with no version returns.
  pub mem_next_version-mem_insert :
      (by_id : ById) (a : Artifact)
      → IsStored is_datetime by_id
      → is_artifact is_datetime a ≡ true
      → a.version ≡ mem_next_version by_id a.id
      → (s : ById) × (mem_insert is_datetime by_id a ≡ returned (a, s))
        × (mem_get s a.id none ≡ some a)
  unfolding mem_insert mem_get validate_artifact
  mem_next_version-mem_insert by_id a h ok next =
      let vs = or_empty (get a.id by_id) in
      let below = rw (← next) at (mem_next_version-above by_id a.id h) in
      let new = below-any a.version vs below in
      let key = λ (x : Artifact). x.version in
      let run = bucket-IsRun is_datetime a.id by_id h in
      let sorted = sort_by-Strict_id key (vs ++ a ∷ []) (Strict-snoc key vs a run.ordered below) in
      (
        set a.id (sort_versions (vs ++ a ∷ [])) by_id,
        rw (ok, new) refl,
        rw (get-set, beq_self a.id, sorted) (last-append vs a),
      )

filter-find :
    (v : ℕ) (vs : List Artifact)
    → find (has_version v) vs ≡ none
    → filter (λ a. not (has_version v a)) vs ≡ vs
filter-find v [] h = refl
filter-find v (a ∷ vs) h = ground (arith, filter-find v vs)

filter-shorter :
    (v : ℕ) (vs : List Artifact) (a : Artifact)
    → find (has_version v) vs ≡ some a
    → length (filter (λ a. not (has_version v a)) vs) < length vs
filter-shorter v [] a h = cc
filter-shorter v (b ∷ vs) a h =
    ground (arith, filter-shorter v vs a, length-filter-le (λ a. not (has_version v a)) vs)

find-filter :
    (v w : ℕ) (vs : List Artifact)
    → find (has_version w) (filter (λ a. not (has_version v a)) vs)
      ≡ (if nat_beq v w then none else find (has_version w) vs)
find-filter v w [] = ground arith
find-filter v w (a ∷ vs) = ground (arith, find-filter v w vs)

pub get-put_versions :
    (id j : String) (vs : List Artifact) (by_id : ById)
    → or_empty (get j (put_versions id vs by_id)) ≡ (if id == j then vs else or_empty (get j by_id))
get-put_versions id j [] by_id = ground (arith, get-delete id j by_id)
get-put_versions id j (a ∷ vs) by_id = ground (arith, get-set id j (a ∷ vs) by_id)

-- The deletion of one version throws if there is none to delete, and otherwise takes away the
-- read of that id and version and no other.
pub mem_get-mem_delete :
    (by_id : ById) (id : String) (v : ℕ)
    → ((mem_get by_id id (some v) ≡ none)
        → (w : Option ℕ) × (mem_delete by_id id (some v) ≡ threw (not_found id w)))
      × ((a : Artifact)
          → mem_get by_id id (some v) ≡ some a
          → (s : ById) × (mem_delete by_id id (some v) ≡ returned s)
            × ((j : String) (w : ℕ)
                → mem_get s j (some w)
                  ≡ (if id == j && nat_beq v w then none else mem_get by_id j (some w))))
unfolding mem_get mem_delete
mem_get-mem_delete by_id id v = elim (Option-cases (get id by_id)) [
  | inl missing ↦ rw (missing, mem_delete, mem_get) ((λ h. (none, refl)), (λ a h. cc))
  | inr (vs, found) ↦
      let kept = filter (λ a. not (has_version v a)) vs in
      (
        λ h. (some v, ground (arith, filter-find v vs)),
        λ a h. (
          put_versions id kept by_id,
          ground (arith, filter-shorter v vs a),
          λ j w.
              ground (
                arith,
                get-put_versions id j kept by_id,
                find-filter v w vs,
                string_eq.beq_iff id j,
              ),
        ),
      )
]
