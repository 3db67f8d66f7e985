-- ===== src/Canvas/Bus/Sets.antt =====
-- The handlers of a conversation, as lists without duplicates.
use theokit_plugins.Common.{
  ℕ, ◌+◌, ◌≤◌, true, false, List, [], ◌∷◌, ◌++◌, not, ◌&&◌, ◌||◌, if◌then◌else◌, ◌≡◌, refl, sym, ap,
  arith, nat_beq, nat_beq_iff, string_eq, count_by, Bool-cases, if-both, inl, inr,
}
use theokit_plugins.Canvas.Bus.{elem, add, remove}

elem-append : (k j : ℕ) (hs : List ℕ) → elem k (hs ++ j ∷ []) ≡ (elem k hs || nat_beq j k)
elem-append k j [] = ground arith
elem-append k j (h ∷ hs) = ground (arith, elem-append k j hs)

elem_same : (k j : ℕ) (hs : List ℕ) → nat_beq j k ≡ true → elem k hs ≡ elem j hs
elem_same k j hs e = ap (λ x. elem x hs) (sym ((nat_beq_iff j k).0 e))

pub elem-add : (k j : ℕ) (hs : List ℕ) → elem k (add j hs) ≡ (elem k hs || nat_beq j k)
elem-add k j hs =
    if-both (λ l. elem k l ≡ (elem k hs || nat_beq j k)) (elem j hs) hs (hs ++ j ∷ [])
      (λ there. elim (Bool-cases (nat_beq j k)) [
        | inl same ↦ rw (elem_same k j hs same, there) refl
        | inr other ↦ ground (arith, other)
      ])
      (λ new. elem-append k j hs)

pub elem-remove : (k j : ℕ) (hs : List ℕ) → elem k (remove j hs) ≡ (elem k hs && not (nat_beq j k))
elem-remove k j [] = refl
elem-remove k j (h ∷ hs) = ground (arith, elem-remove k j hs)

abbrev pub times : ℕ → List ℕ → ℕ
times k hs = count_by (λ h. nat_beq h k) hs

times-append :
    (k j : ℕ) (hs : List ℕ) → times k (hs ++ j ∷ []) ≡ times k hs + (if nat_beq j k then 1 else 0)
times-append k j [] = omega arith
times-append k j (h ∷ hs) = omega (arith, times-append k j hs)

times-absent : (k : ℕ) (hs : List ℕ) → elem k hs ≡ false → times k hs ≡ 0
times-absent k [] e = refl
times-absent k (h ∷ hs) e = ground (arith, times-absent k hs)

pub times-add : (k j : ℕ) (hs : List ℕ) → times k hs ≤ 1 → times k (add j hs) ≤ 1
times-add k j hs h =
    if-both (λ l. times k l ≤ 1) (elem j hs) hs (hs ++ j ∷ []) (λ there. h)
      (λ new. elim (Bool-cases (nat_beq j k)) [
        | inl same ↦ ground (arith, times-append k j hs, times-absent k hs, elem_same k j hs same)
        | inr other ↦ ground (arith, times-append k j hs)
      ])

pub times-remove : (k j : ℕ) (hs : List ℕ) → times k (remove j hs) ≤ times k hs
times-remove k j [] = omega arith
times-remove k j (h ∷ hs) = ground (arith, times-remove k j hs)
