-- ===== src/Canvas/Store/Invariant.antt =====
-- Every stored bucket is a list of valid artifacts of its id, in strictly ascending order of
-- version, and is not empty; no operation breaks this.
use theokit_plugins.Common.{
  ℕ, String, Bool, true, false, not, Option, none, some, List, [], ◌∷◌, ◌++◌, any, filter, length,
  length-snoc, ◌⊎◌, string_eq, ◌≡◌, ◌≢◌, refl, ap, arith, All, All-append, All-filter, Option-cases,
  inl, inr,
}
use theokit_plugins.Common.Assoc.{get, set, delete, Each, Each-set, Each-delete, Each-get}
use theokit_plugins.Common.Async.{Attempt, returned, threw}
use theokit_plugins.Common.Sort.{
  Strict, All-sort_by, sort_by_snoc-Strict, filter-Strict, length-sort_by,
}
use theokit_plugins.Canvas.Artifact.{Artifact, CanvasError, is_artifact, validate_artifact}
use theokit_plugins.Canvas.Store.{
  ById, or_empty, has_version, sort_versions, mem_insert, put_versions, mem_delete,
}

any-false :
    (v : ℕ) (vs : List Artifact) → any (has_version v) vs ≡ false → All (λ a. a.version ≢ v) vs
any-false v [] h = tt
any-false v (a ∷ vs) h = ground (arith, any-false v vs)

sort_versions-nonempty : (vs : List Artifact) (a : Artifact) → sort_versions (vs ++ a ∷ []) ≢ []
sort_versions-nonempty vs a e = absurd (
    omega (
      arith,
      ap length e,
      length-sort_by (λ (x : Artifact). x.version) (vs ++ a ∷ []),
      length-snoc vs a,
    ))

module _ (is_datetime : String → Bool) where
  pub record IsBucket (id : String) (vs : List Artifact) : Type 0 where
    pub nonempty : vs ≢ []
    pub ordered : Strict (λ a. a.version) vs
    pub owned : All (λ a. a.id ≡ id) vs
    pub valid : All (λ a. is_artifact is_datetime a ≡ true) vs

  abbrev pub IsStored : ById → Type 0
  IsStored = Each IsBucket

  -- An insertion that returns, returns the artifact it was given, which is valid and of a new
  -- version, and has put it into its bucket.
  pub mem_insert-returned :
      (by_id s : ById) (a b : Artifact)
      → mem_insert is_datetime by_id a ≡ returned (b, s)
      → (b ≡ a)
        × (is_artifact is_datetime a ≡ true)
        × (any (has_version a.version) (or_empty (get a.id by_id)) ≡ false)
        × (s ≡ set a.id (sort_versions (or_empty (get a.id by_id) ++ a ∷ [])) by_id)
  unfolding mem_insert validate_artifact
  mem_insert-returned by_id s a b h = ground arith

  -- The facts of a bucket hold of an absent one too, but that it is not empty.
  pub record IsRun (id : String) (vs : List Artifact) : Type 0 where
    pub ordered : Strict (λ a. a.version) vs
    pub owned : All (λ a. a.id ≡ id) vs
    pub valid : All (λ a. is_artifact is_datetime a ≡ true) vs

  pub bucket-IsRun :
      (id : String) (by_id : ById) → IsStored by_id → IsRun id (or_empty (get id by_id))
  bucket-IsRun id by_id h = elim (Option-cases (get id by_id)) [
    | inl missing ↦ rw missing (record { ordered = tt; owned = tt; valid = tt })
    | inr (vs, found) ↦
        let b = Each-get IsBucket id by_id h found in
        rw found (record { ordered = b.ordered; owned = b.owned; valid = b.valid })
  ]

  snoc-IsBucket :
      (id : String) (vs : List Artifact) (a : Artifact)
      → IsRun id vs
      → a.id ≡ id
      → is_artifact is_datetime a ≡ true
      → All (λ b. b.version ≢ a.version) vs
      → IsBucket id (sort_versions (vs ++ a ∷ []))
  snoc-IsBucket id vs a run own ok new = record {
    nonempty = sort_versions-nonempty vs a;
    ordered = sort_by_snoc-Strict (λ b. b.version) vs a run.ordered new;
    owned =
        All-sort_by (λ b. b.version) (λ b. b.id ≡ id) (vs ++ a ∷ [])
          (All-append (λ b. b.id ≡ id) vs (a ∷ []) run.owned (own, tt));
    valid =
        All-sort_by (λ b. b.version) (λ b. is_artifact is_datetime b ≡ true) (vs ++ a ∷ [])
          (All-append (λ b. is_artifact is_datetime b ≡ true) vs (a ∷ []) run.valid (ok, tt));
  }

  mem_insert-IsStored :
      (by_id s : ById) (a b : Artifact)
      → IsStored by_id
      → mem_insert is_datetime by_id a ≡ returned (b, s)
      → IsStored s
  mem_insert-IsStored by_id s a b h e =
      let (same, ok, new, put) = mem_insert-returned by_id s a b e in
      let vs = or_empty (get a.id by_id) in
      rw put (
        Each-set IsBucket a.id _ by_id h (
          snoc-IsBucket a.id vs a (bucket-IsRun a.id by_id h) refl ok (any-false a.version vs new)))

  filter-IsRun :
      (id : String) (p : Artifact → Bool) (vs : List Artifact)
      → IsRun id vs
      → IsRun id (filter p vs)
  filter-IsRun id p vs run = record {
    ordered = filter-Strict (λ a. a.version) p vs run.ordered;
    owned = All-filter (λ a. a.id ≡ id) p vs run.owned;
    valid = All-filter (λ a. is_artifact is_datetime a ≡ true) p vs run.valid;
  }

  put_versions-IsStored :
      (id : String) (vs : List Artifact) (by_id : ById)
      → IsStored by_id
      → IsRun id vs
      → IsStored (put_versions id vs by_id)
  put_versions-IsStored id [] by_id h run = Each-delete IsBucket id by_id h
  put_versions-IsStored id (a ∷ vs) by_id h run =
      Each-set IsBucket id (a ∷ vs) by_id h
        (record { nonempty = λ e. cc; ordered = run.ordered; owned = run.owned; valid = run.valid })

  -- What a deletion that returns has done: nothing to an id that is not stored, all of the id
  -- without a version, and one version, which was there, otherwise.
  pub mem_delete-returned :
      (by_id s : ById) (id : String) (version : Option ℕ)
      → mem_delete by_id id version ≡ returned s
      → (s ≡ by_id)
        ⊎ (s ≡ delete id by_id)
        ⊎ ((v : ℕ) × (version ≡ some v)
            × (s
                ≡ put_versions id
                    (filter (λ a. not (has_version v a)) (or_empty (get id by_id)))
                    by_id))
  unfolding mem_delete
  mem_delete-returned by_id s id none h = ground arith
  mem_delete-returned by_id s id (some v) h = inr (inr (v, refl, ground arith))

  mem_delete-IsStored :
      (by_id s : ById) (id : String) (version : Option ℕ)
      → IsStored by_id
      → mem_delete by_id id version ≡ returned s
      → IsStored s
  mem_delete-IsStored by_id s id version h e = after (mem_delete-returned by_id s id version e)
    where
      after :
          (s ≡ by_id)
            ⊎ (s ≡ delete id by_id)
            ⊎ ((v : ℕ) × (version ≡ some v)
                × (s
                    ≡ put_versions id
                        (filter (λ a. not (has_version v a)) (or_empty (get id by_id)))
                        by_id))
          → IsStored s
      after (inl same) = rw same h
      after (inr (inl gone)) = rw gone (Each-delete IsBucket id by_id h)
      after (inr (inr (v, _, put))) = rw put (
          put_versions-IsStored id _ by_id h
            (filter-IsRun id (λ a. not (has_version v a)) _ (bucket-IsRun id by_id h)))

-- A call of a method that writes.
pub data Write : Type 0 where
  insert : Artifact → Write
  remove : (id : String) → (version : Option ℕ) → Write

abbrev kept : {A : Type 0} → (A → ById) → ById → Attempt CanvasError A → ById
kept f by_id (returned a) = f a
kept f by_id (threw e) = by_id

-- The map after the calls; one that throws leaves it.
unfoldable pub run_writes : (String → Bool) → List Write → ById → ById
run_writes is_datetime [] by_id = by_id
run_writes is_datetime (insert a ∷ rest) by_id =
    run_writes is_datetime rest (kept (λ p. p.1) by_id (mem_insert is_datetime by_id a))
run_writes is_datetime (remove id version ∷ rest) by_id =
    run_writes is_datetime rest (kept (λ s. s) by_id (mem_delete by_id id version))

module _ (is_datetime : String → Bool) where
  run_writes-IsStored_from :
      (writes : List Write) (by_id : ById)
      → IsStored is_datetime by_id
      → IsStored is_datetime (run_writes is_datetime writes by_id)
  unfolding run_writes
  run_writes-IsStored_from [] by_id h = h
  run_writes-IsStored_from (insert a ∷ rest) by_id h =
      run_writes-IsStored_from rest _ (keep (mem_insert is_datetime by_id a) refl)
    where
      keep :
          (r : Attempt CanvasError (Artifact × ById))
          → mem_insert is_datetime by_id a ≡ r
          → IsStored is_datetime (kept (λ p. p.1) by_id r)
      keep (returned (b, s)) e = mem_insert-IsStored is_datetime by_id s a b h e
      keep (threw x) e = h
  run_writes-IsStored_from (remove id version ∷ rest) by_id h =
      run_writes-IsStored_from rest _ (keep (mem_delete by_id id version) refl)
    where
      keep :
          (r : Attempt CanvasError ById)
          → mem_delete by_id id version ≡ r
          → IsStored is_datetime (kept (λ s. s) by_id r)
      keep (returned s) e = mem_delete-IsStored is_datetime by_id s id version h e
      keep (threw x) e = h

  -- After any calls of the store's writing methods, each bucket is a list of valid artifacts of
  -- its id, in strictly ascending order of version, and is not empty.
  pub run_writes-IsStored :
      (writes : List Write) → IsStored is_datetime (run_writes is_datetime writes [])
  run_writes-IsStored writes = run_writes-IsStored_from writes [] tt
