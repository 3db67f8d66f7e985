-- ===== src/Common/Sort.antt =====
-- `Array.prototype.sort` by a numeric key, which is stable: insertion from the right, an element
-- before those of its own key.
use Prim.Native.Nat.{ℕ, zero, suc, ◌≤◌, ◌<◌}
use mathlib.Core.Path.{◌≡◌, refl, ap, ◌∙◌, sym}
use mathlib.Core.Logic.{◌≢◌}
use mathlib.Core.Bool.{Bool}
use mathlib.Core.Option.{some}
use mathlib.Core.List.{List, [], ◌∷◌, ◌++◌}
use native.Mathlib.Omega.{arith}
use theokit_plugins.Common.Tests.{if◌then◌else◌, leb, nat_beq}
use theokit_plugins.Common.Lists.{
  All, All-take, All-append, All-filter, filter, last, find, length, take, drop,
}

module _ {A : Type 0} (key : A → ℕ) where
  unfoldable pub insert_by : A → List A → List A
  insert_by x [] = x ∷ []
  insert_by x (y ∷ ys) = if leb (key x) (key y) then x ∷ y ∷ ys else y ∷ insert_by x ys

  unfoldable pub sort_by : List A → List A
  unfolding insert_by
  sort_by [] = []
  sort_by (x ∷ xs) = insert_by x (sort_by xs)

  abbrev pub Ascending : List A → Type 0
  Ascending [] = Unit
  Ascending (x ∷ xs) = All (λ y. key x ≤ key y) xs × Ascending xs

  pub All-insert_by {κ} :
      (P : A → Type κ) (x : A) (ys : List A) → P x → All P ys → All P (insert_by x ys)
  unfolding insert_by
  All-insert_by P x [] p h = (p, tt)
  All-insert_by P x (y ∷ ys) p (q, h) = ground (arith, All-insert_by P x ys p h)

  pub All-sort_by {κ} : (P : A → Type κ) (xs : List A) → All P xs → All P (sort_by xs)
  unfolding sort_by
  All-sort_by P [] h = tt
  All-sort_by P (x ∷ xs) (p, h) = All-insert_by P x (sort_by xs) p (All-sort_by P xs h)

  All-below : (n m : ℕ) (xs : List A) → n ≤ m → All (λ y. m ≤ key y) xs → All (λ y. n ≤ key y) xs
  All-below n m [] le h = tt
  All-below n m (x ∷ xs) le (p, h) = (omega arith, All-below n m xs le h)

  insert_by-Ascending : (x : A) (ys : List A) → Ascending ys → Ascending (insert_by x ys)
  unfolding insert_by
  insert_by-Ascending x [] h = (tt, tt)
  insert_by-Ascending x (y ∷ ys) (p, h) = ground (
    arith,
    All-below (key x) (key y) ys,
    insert_by-Ascending x ys h,
    All-insert_by (λ z. key y ≤ key z) x ys,
  )

  pub sort_by-Ascending : (xs : List A) → Ascending (sort_by xs)
  unfolding sort_by
  sort_by-Ascending [] = tt
  sort_by-Ascending (x ∷ xs) = insert_by-Ascending x (sort_by xs) (sort_by-Ascending xs)

  -- The first element of a key is the same before and after.
  find-insert_by :
      (k : ℕ) (x : A) (ys : List A)
      → find (λ y. nat_beq (key y) k) (insert_by x ys)
        ≡ (if nat_beq (key x) k then some x else find (λ y. nat_beq (key y) k) ys)
  unfolding insert_by
  find-insert_by k x [] = refl
  find-insert_by k x (y ∷ ys) = ground (arith, find-insert_by k x ys)

  pub find-sort_by :
      (k : ℕ) (xs : List A)
      → find (λ y. nat_beq (key y) k) (sort_by xs) ≡ find (λ y. nat_beq (key y) k) xs
  unfolding sort_by
  find-sort_by k [] = refl
  find-sort_by k (x ∷ xs) = rw (find-insert_by k x (sort_by xs), find-sort_by k xs) refl

  length-insert_by : (x : A) (ys : List A) → length (insert_by x ys) ≡ suc (length ys)
  unfolding insert_by
  length-insert_by x [] = refl
  length-insert_by x (y ∷ ys) = ground (arith, length-insert_by x ys)

  pub length-sort_by : (xs : List A) → length (sort_by xs) ≡ length xs
  unfolding sort_by
  length-sort_by [] = refl
  length-sort_by (x ∷ xs) = length-insert_by x (sort_by xs) ∙ ap suc (length-sort_by xs)

-- Lists with one element for each key.
module _ {A : Type 0} (key : A → ℕ) where
  abbrev pub Strict : List A → Type 0
  Strict [] = Unit
  Strict (x ∷ xs) = All (λ y. key x < key y) xs × Strict xs

  abbrev pub Distinct : List A → Type 0
  Distinct [] = Unit
  Distinct (x ∷ xs) = All (λ y. key y ≢ key x) xs × Distinct xs

  All-apart : (n : ℕ) (xs : List A) → All (λ y. n < key y) xs → All (λ y. key y ≢ n) xs
  All-apart n [] h = tt
  All-apart n (x ∷ xs) (p, h) = (omega arith, All-apart n xs h)

  Strict-Distinct : (xs : List A) → Strict xs → Distinct xs
  Strict-Distinct [] h = tt
  Strict-Distinct (x ∷ xs) (p, h) = (All-apart (key x) xs p, Strict-Distinct xs h)

  Distinct-snoc :
      (xs : List A) (a : A) → Distinct xs → All (λ y. key y ≢ key a) xs → Distinct (xs ++ a ∷ [])
  Distinct-snoc [] a h k = (tt, tt)
  Distinct-snoc (x ∷ xs) a (p, h) (q, k) =
      (All-append (λ y. key y ≢ key x) xs (a ∷ []) p ((λ e. q (sym e)), tt), Distinct-snoc xs a h k)

  All-over : (n m : ℕ) (xs : List A) → n < m → All (λ y. m < key y) xs → All (λ y. n < key y) xs
  All-over n m [] lt h = tt
  All-over n m (x ∷ xs) lt (p, h) = (omega arith, All-over n m xs lt h)

  insert_by-Strict :
      (x : A) (ys : List A) → All (λ y. key y ≢ key x) ys → Strict ys → Strict (insert_by key x ys)
  unfolding insert_by
  insert_by-Strict x [] k h = (tt, tt)
  insert_by-Strict x (y ∷ ys) (q, k) (p, h) = ground (
    arith,
    All-over (key x) (key y) ys,
    insert_by-Strict x ys k h,
    All-insert_by key (λ z. key y < key z) x ys,
  )

  pub sort_by-Strict : (xs : List A) → Distinct xs → Strict (sort_by key xs)
  unfolding sort_by
  sort_by-Strict [] h = tt
  sort_by-Strict (x ∷ xs) (p, h) =
      insert_by-Strict x (sort_by key xs) (All-sort_by key (λ y. key y ≢ key x) xs p)
        (sort_by-Strict xs h)

  -- The list with one more element, of a new key.
  pub sort_by_snoc-Strict :
      (xs : List A) (a : A)
      → Strict xs
      → All (λ y. key y ≢ key a) xs
      → Strict (sort_by key (xs ++ a ∷ []))
  sort_by_snoc-Strict xs a h k =
      sort_by-Strict (xs ++ a ∷ []) (Distinct-snoc xs a (Strict-Distinct xs h) k)

  -- A list in order stays as it is.
  insert_by-front :
      (x : A) (ys : List A) → All (λ y. key x < key y) ys → insert_by key x ys ≡ x ∷ ys
  unfolding insert_by
  insert_by-front x [] h = refl
  insert_by-front x (y ∷ ys) (p, h) = ground arith

  pub sort_by-Strict_id : (xs : List A) → Strict xs → sort_by key xs ≡ xs
  unfolding sort_by
  sort_by-Strict_id [] h = refl
  sort_by-Strict_id (x ∷ xs) (p, h) =
      ap (insert_by key x) (sort_by-Strict_id xs h) ∙ insert_by-front x xs p

  pub Strict-snoc :
      (xs : List A) (a : A) → Strict xs → All (λ y. key y < key a) xs → Strict (xs ++ a ∷ [])
  Strict-snoc [] a h k = (tt, tt)
  Strict-snoc (x ∷ xs) a (p, h) (q, k) =
      (All-append (λ y. key x < key y) xs (a ∷ []) p (q, tt), Strict-snoc xs a h k)

  -- The last element has the largest key.
  pub last-max : (xs : List A) (a : A) → Strict xs → last xs ≡ some a → All (λ y. key y ≤ key a) xs
  last-max [] a h e = tt
  last-max (x ∷ []) a h e = ground arith
  last-max (x ∷ y ∷ xs) a (p, h) e =
      let rest = last-max (y ∷ xs) a h e in (omega (arith, p.0, rest.0), rest)

  pub filter-Strict : (p : A → Bool) (xs : List A) → Strict xs → Strict (filter p xs)
  filter-Strict p [] h = tt
  filter-Strict p (x ∷ xs) (q, h) =
      ground (arith, filter-Strict p xs h, All-filter (λ y. key x < key y) p xs q)

-- The same from the largest key down.
module _ {A : Type 0} (key : A → ℕ) where
  unfoldable pub insert_down : A → List A → List A
  insert_down x [] = x ∷ []
  insert_down x (y ∷ ys) = if leb (key y) (key x) then x ∷ y ∷ ys else y ∷ insert_down x ys

  unfoldable pub sort_down : List A → List A
  unfolding insert_down
  sort_down [] = []
  sort_down (x ∷ xs) = insert_down x (sort_down xs)

  abbrev pub Descending : List A → Type 0
  Descending [] = Unit
  Descending (x ∷ xs) = All (λ y. key y ≤ key x) xs × Descending xs

  All-insert_down {κ} :
      (P : A → Type κ) (x : A) (ys : List A) → P x → All P ys → All P (insert_down x ys)
  unfolding insert_down
  All-insert_down P x [] p h = (p, tt)
  All-insert_down P x (y ∷ ys) p (q, h) = ground (arith, All-insert_down P x ys p h)

  pub All-sort_down {κ} : (P : A → Type κ) (xs : List A) → All P xs → All P (sort_down xs)
  unfolding sort_down
  All-sort_down P [] h = tt
  All-sort_down P (x ∷ xs) (p, h) = All-insert_down P x (sort_down xs) p (All-sort_down P xs h)

  All-above : (n m : ℕ) (xs : List A) → m ≤ n → All (λ y. key y ≤ m) xs → All (λ y. key y ≤ n) xs
  All-above n m [] le h = tt
  All-above n m (x ∷ xs) le (p, h) = (omega arith, All-above n m xs le h)

  insert_down-Descending : (x : A) (ys : List A) → Descending ys → Descending (insert_down x ys)
  unfolding insert_down
  insert_down-Descending x [] h = (tt, tt)
  insert_down-Descending x (y ∷ ys) (p, h) = ground (
    arith,
    All-above (key x) (key y) ys,
    insert_down-Descending x ys h,
    All-insert_down (λ z. key z ≤ key y) x ys,
  )

  pub sort_down-Descending : (xs : List A) → Descending (sort_down xs)
  unfolding sort_down
  sort_down-Descending [] = tt
  sort_down-Descending (x ∷ xs) = insert_down-Descending x (sort_down xs) (sort_down-Descending xs)

  Descending-take : (n : ℕ) (xs : List A) → Descending xs → Descending (take n xs)
  Descending-take zero xs h = tt
  Descending-take (suc n) [] h = tt
  Descending-take (suc n) (x ∷ xs) (p, h) =
      (All-take (λ y. key y ≤ key x) n xs p, Descending-take n xs h)

  Descending-drop : (n : ℕ) (xs : List A) → Descending xs → Descending (drop n xs)
  Descending-drop zero xs h = h
  Descending-drop (suc n) [] h = tt
  Descending-drop (suc n) (x ∷ xs) (p, h) = Descending-drop n xs h

  -- A page of a sorted list is sorted.
  pub Descending-page :
      (offset limit : ℕ) (xs : List A) → Descending xs → Descending (take limit (drop offset xs))
  Descending-page offset limit xs h =
      Descending-take limit (drop offset xs) (Descending-drop offset xs h)
