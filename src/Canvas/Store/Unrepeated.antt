-- ===== src/Canvas/Store/Unrepeated.antt =====
-- No row of a listing comes twice.
use theokit_plugins.Common.{
  ℕ, ◌<◌, String, Bool, Option, none, some, List, [], ◌∷◌, ◌++◌, filter, last, ◌≡◌, refl, sym,
  subst, ◌∙◌, arith, inl, inr, string_eq, leb, if-both,
}
use theokit_plugins.Common.Assoc.{get, values}
use theokit_plugins.Common.Sort.{Strict, insert_down, sort_down}
use theokit_plugins.Canvas.Artifact.{Artifact}
use theokit_plugins.Canvas.Store.{
  ById, ListFilter, ListMode, latest, every, or_else, one_of, candidates, mem_matches_filter,
  rows_of,
}
use theokit_plugins.Canvas.Store.Invariant.{IsStored, IsBucket}
use theokit_plugins.Canvas.Store.Rows.{
  In, In-append, In-filter, In-insert_down, In-sort_down, rows_of-IsRow,
}
use theokit_plugins.Canvas.Store.Shown.{IsMap, In-get, All-In, picked}

-- No element comes twice.
abbrev pub Unrepeated : {A : Type 0} → List A → Type 0
Unrepeated [] = Unit
Unrepeated (x ∷ xs) = (In x xs → ⊥) × Unrepeated xs

module _ {A : Type 0} where
  filter-Unrepeated : (p : A → Bool) (xs : List A) → Unrepeated xs → Unrepeated (filter p xs)
  filter-Unrepeated p [] d = tt
  filter-Unrepeated p (x ∷ xs) (new, d) =
      let rest = filter-Unrepeated p xs d in
      if-both Unrepeated (p x) (x ∷ filter p xs) (filter p xs)
        (λ yes. ((λ h. new ((In-filter p x xs).0 h).0), rest)) (λ no. rest)

  append-Unrepeated :
      (xs ys : List A)
      → Unrepeated xs
      → Unrepeated ys
      → ((a : A) → In a xs → In a ys → ⊥)
      → Unrepeated (xs ++ ys)
  append-Unrepeated [] ys d e apart = e
  append-Unrepeated (x ∷ xs) ys (new, d) e apart = (
    (λ h. elim ((In-append x xs ys).0 h) [ inl h ↦ new h | inr h ↦ apart x (inl refl) h ]),
    append-Unrepeated xs ys d e (λ a h k. apart a (inr h) k),
  )

  insert_down-Unrepeated :
      (key : A → ℕ) (x : A) (ys : List A)
      → (In x ys → ⊥)
      → Unrepeated ys
      → Unrepeated (insert_down key x ys)
  unfolding insert_down
  insert_down-Unrepeated key x [] new d = ((λ h. h), tt)
  insert_down-Unrepeated key x (y ∷ ys) new (first, d) =
      if-both Unrepeated (leb (key y) (key x)) (x ∷ y ∷ ys) (y ∷ insert_down key x ys)
        (λ here. (new, (first, d)))
        (λ further. (
          (λ h. elim ((In-insert_down key y x ys).0 h) [
            | inl e ↦ new (inl (sym e))
            | inr h ↦ first h
          ]),
          insert_down-Unrepeated key x ys (λ h. new (inr h)) d,
        ))

  pub sort_down-Unrepeated :
      (key : A → ℕ) (xs : List A) → Unrepeated xs → Unrepeated (sort_down key xs)
  unfolding sort_down
  sort_down-Unrepeated key [] d = tt
  sort_down-Unrepeated key (x ∷ xs) (new, d) =
      insert_down-Unrepeated key x (sort_down key xs) (λ h. new ((In-sort_down key x xs).0 h))
        (sort_down-Unrepeated key xs d)

  Strict-Unrepeated : (key : A → ℕ) (xs : List A) → Strict key xs → Unrepeated xs
  Strict-Unrepeated key [] h = tt
  Strict-Unrepeated key (x ∷ xs) (above, h) = (
    (λ e. let up = All-In (λ y. key x < key y) x xs above e in absurd (omega arith)),
    Strict-Unrepeated key xs h,
  )

one_of-Unrepeated : (o : Option Artifact) → Unrepeated (one_of o)
one_of-Unrepeated none = tt
one_of-Unrepeated (some a) = ((λ h. h), tt)

not_there : {A : Type 0} {o : Option A} {a : A} → o ≡ none → o ≡ some a → ⊥
not_there e h = cc

module _ (is_datetime : String → Bool) where
  candidates-Unrepeated :
      (mode : ListMode) (k : String) (vs : List Artifact)
      → IsBucket is_datetime k vs
      → Unrepeated (candidates mode vs)
  candidates-Unrepeated latest k vs b = one_of-Unrepeated (last vs)
  candidates-Unrepeated every k vs b = Strict-Unrepeated (λ a. a.version) vs b.ordered

  -- Two buckets have no artifact in common, since each has those of its own id.
  pub rows_of-Unrepeated :
      (f : ListFilter) (by_id : ById)
      → IsStored is_datetime by_id
      → IsMap by_id
      → Unrepeated (rows_of f (values by_id))
  unfolding rows_of
  rows_of-Unrepeated f [] v u = tt
  rows_of-Unrepeated f ((k, vs) ∷ rest) (b, v) (alone, u) =
      let mode = or_else f.mode latest in
      let good = mem_matches_filter f in
      append-Unrepeated (filter good (candidates mode vs)) (rows_of f (values rest))
        (filter-Unrepeated good (candidates mode vs) (candidates-Unrepeated mode k vs b))
        (rows_of-Unrepeated f rest v u)
        (λ a h l.
          let here =
            (picked is_datetime mode k vs a b ((In-filter good a (candidates mode vs)).0 h).0).1 in
          let (j, ws, e, c, m) = (rows_of-IsRow f rest a).0 l in
          let b' =
            All-In (λ (p : String × List Artifact). IsBucket is_datetime p.0 p.1) (j, ws) rest v
              e in
          let there = (picked is_datetime mode j ws a b' c).1 in
          let found = In-get rest j ws u e in
          absurd (not_there alone (subst (λ i. get i rest ≡ some ws) (sym there ∙ here) found)))
