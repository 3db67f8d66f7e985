-- ===== src/Canvas/Store/Rows.antt =====
-- Which artifacts the rows of a listing are.
use theokit_plugins.Common.{
  String, Bool, true, false, List, [], ◌∷◌, ◌++◌, filter, ◌≡◌, ◌↔◌, refl, sym, ap, subst, ◌∙◌, ◌⊎◌,
  inl, inr, string_eq, leb, ℕ, if-both,
}
use theokit_plugins.Common.Assoc.{values}
use theokit_plugins.Common.Sort.{insert_down, sort_down}
use theokit_plugins.Canvas.Artifact.{Artifact}
use theokit_plugins.Canvas.Store.{
  ById, ListFilter, latest, or_else, candidates, mem_matches_filter, rows_of,
}

-- The list has the element.
abbrev pub In : {A : Type 0} → A → List A → Type 0
In a [] = ⊥
In a (x ∷ xs) = (x ≡ a) ⊎ In a xs

no_clash : true ≡ false → ⊥
no_clash h = cc

module _ {A : Type 0} where
  pub In-append : (a : A) (xs ys : List A) → In a (xs ++ ys) ↔ (In a xs ⊎ In a ys)
  In-append a [] ys = ((λ h. inr h), (λ h. elim h [ inl h ↦ absurd h | inr h ↦ h ]))
  In-append a (x ∷ xs) ys =
      let (there, back) = In-append a xs ys in
      (
        (λ h. elim h [
          | inl e ↦ inl (inl e)
          | inr h ↦ elim (there h) [ inl h ↦ inl (inr h) | inr h ↦ inr h ]
        ]),
        (λ h. elim h [
          | inl h ↦ elim h [ inl e ↦ inl e | inr h ↦ inr (back (inl h)) ]
          | inr h ↦ inr (back (inr h))
        ]),
      )

  pub In-filter :
      (p : A → Bool) (a : A) (xs : List A) → In a (filter p xs) ↔ (In a xs × (p a ≡ true))
  In-filter p a [] = ((λ h. absurd h), (λ h. absurd h.0))
  In-filter p a (x ∷ xs) =
      let (there, back) = In-filter p a xs in
      if-both (λ l. In a l ↔ (In a (x ∷ xs) × (p a ≡ true))) (p x) (x ∷ filter p xs) (filter p xs)
        (λ yes. (
          (λ h. elim h [
            | inl e ↦ (inl e, subst (λ y. p y ≡ true) e yes)
            | inr h ↦ (inr (there h).0, (there h).1)
          ]),
          (λ (h, good). elim h [ inl e ↦ inl e | inr h ↦ inr (back (h, good)) ]),
        ))
        (λ no. (
          (λ h. (inr (there h).0, (there h).1)),
          (λ (h, good). elim h [
            | inl e ↦ absurd (no_clash (sym good ∙ ap p (sym e) ∙ no))
            | inr h ↦ back (h, good)
          ]),
        ))

  pub In-insert_down :
      (key : A → ℕ) (a x : A) (ys : List A) → In a (insert_down key x ys) ↔ In a (x ∷ ys)
  unfolding insert_down
  In-insert_down key a x [] = ((λ h. h), (λ h. h))
  In-insert_down key a x (y ∷ ys) =
      let (there, back) = In-insert_down key a x ys in
      if-both (λ l. In a l ↔ In a (x ∷ y ∷ ys)) (leb (key y) (key x)) (x ∷ y ∷ ys)
        (y ∷ insert_down key x ys) (λ here. ((λ h. h), (λ h. h)))
        (λ further. (
          (λ h. elim h [
            | inl e ↦ inr (inl e)
            | inr h ↦ elim (there h) [ inl e ↦ inl e | inr h ↦ inr (inr h) ]
          ]),
          (λ h. elim h [
            | inl e ↦ inr (back (inl e))
            | inr h ↦ elim h [ inl e ↦ inl e | inr h ↦ inr (back (inr h)) ]
          ]),
        ))

  -- Sorting keeps the elements.
  pub In-sort_down : (key : A → ℕ) (a : A) (xs : List A) → In a (sort_down key xs) ↔ In a xs
  unfolding sort_down
  In-sort_down key a [] = ((λ h. h), (λ h. h))
  In-sort_down key a (x ∷ xs) =
      let (there, back) = In-sort_down key a xs in
      let (first, last_) = In-insert_down key a x (sort_down key xs) in
      (
        (λ h. elim (first h) [ inl e ↦ inl e | inr h ↦ inr (there h) ]),
        (λ h. last_ (elim h [ inl e ↦ inl e | inr h ↦ inr (back h) ])),
      )

-- One of the buckets has the artifact, and the filter asks for it.
abbrev pub IsRow : ListFilter → ById → Artifact → Type 0
IsRow f by_id a =
    (k : String) × (vs : List Artifact) × In (k, vs) by_id
    × In a (candidates (or_else f.mode latest) vs)
    × (mem_matches_filter f a ≡ true)

pub rows_of-IsRow :
    (f : ListFilter) (by_id : ById) (a : Artifact)
    → In a (rows_of f (values by_id)) ↔ IsRow f by_id a
unfolding rows_of
rows_of-IsRow f [] a = ((λ h. absurd h), (λ (k, vs, h, c, m). absurd h))
rows_of-IsRow f ((k, vs) ∷ rest) a =
    let (there, back) = rows_of-IsRow f rest a in
    let found = candidates (or_else f.mode latest) vs in
    let (split, join) =
      In-append a (filter (mem_matches_filter f) found) (rows_of f (values rest)) in
    let (passed, pass) = In-filter (mem_matches_filter f) a found in
    (
      (λ h. elim (split h) [
        | inl h ↦ (k, vs, inl refl, (passed h).0, (passed h).1)
        | inr h ↦ let (j, ws, e, c, m) = there h in (j, ws, inr e, c, m)
      ]),
      (λ (j, ws, e, c, m). elim e [
        | inl same ↦ join (
            inl (
              pass (
                subst
                    (λ (z : String × List Artifact). In a (candidates (or_else f.mode latest) z.1))
                    (sym same) c,
                m,
              )))
        | inr e ↦ join (inr (back (j, ws, e, c, m)))
      ]),
    )
