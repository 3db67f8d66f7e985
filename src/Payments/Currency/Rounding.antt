-- ===== src/Payments/Currency/Rounding.antt =====
-- The digits that are kept and the digit after them make the whole number nearest to the amount.
use theokit_plugins.Common.{
  ℕ, zero, suc, ◌+◌, ◌*◌, ◌≤◌, ◌<◌, ◌≡◌, refl, sym, ap, arith, List, [], ◌∷◌, ◌++◌, length, All,
  if◌then◌else◌, take, leb, Bool-cases, inl, inr, get_elem?,
}
use theokit_plugins.Payments.Currency.{
  at_least_five, value_from, value, pad_end, scale_to_minor_units,
}

-- All are digits.
abbrev pub AreDigits : List ℕ → Type 0
AreDigits ds = All (λ d. d < 10) ds

abbrev pub ten_to : ℕ → ℕ
ten_to zero = 1
ten_to (suc n) = 10 * ten_to n

value_from_lem : (n : ℕ) (ds : List ℕ) → value_from n ds ≡ n * ten_to (length ds) + value ds
unfolding value_from
value_from_lem n [] = omega arith
value_from_lem n (d ∷ ds) = omega (arith, value_from_lem (n * 10 + d) ds, value_from_lem (0 + d) ds)

value-append : (n : ℕ) (xs ys : List ℕ) → value_from n (xs ++ ys) ≡ value_from (value_from n xs) ys
unfolding value_from
value-append n [] ys = refl
value-append n (x ∷ xs) ys = value-append (n * 10 + x) xs ys

mul_le : (a b t : ℕ) → a ≤ b → a * t ≤ b * t
mul_le a b zero h = omega arith
mul_le a b (suc t) h = omega (arith, mul_le a b t h)

digit_lt : (d t : ℕ) → d < 10 → d * t + t ≤ 10 * t
digit_lt d t h = omega (arith, mul_le (suc d) 10 t h)

value-lt : (ds : List ℕ) → AreDigits ds → value ds < ten_to (length ds)
unfolding value_from
value-lt [] h = omega arith
value-lt (d ∷ ds) (p, h) =
    omega (arith, value_from_lem (0 + d) ds, value-lt ds h, digit_lt d (ten_to (length ds)) p)

-- `r` is the whole number nearest to `n / d`, and a tie goes up.
pub record IsNearest (r n d : ℕ) : Type 0 where
  pub not_above : 2 * r * d ≤ 2 * n + d
  pub not_below : 2 * n + d < 2 * (r + 1) * d

-- The kept digits after `n`, and one more if the next digit is at least five.
abbrev rounded : ℕ → List ℕ → ℕ → ℕ
rounded n frac d =
    let base = value_from n (pad_end d (take d frac)) in
    if at_least_five (get_elem? frac d) then base + 1 else base

take-nil : (d : ℕ) → let nothing : List ℕ = [] in take d nothing ≡ nothing
take-nil zero = refl
take-nil (suc d) = refl

rounded-nil : (n d : ℕ) → rounded n [] (suc d) ≡ rounded (n * 10 + 0) [] d
unfolding value_from pad_end
rounded-nil n d = ap (λ xs. value_from (n * 10 + 0) (pad_end d xs)) (sym (take-nil d))

rounded-IsNearest :
    (n : ℕ) (frac : List ℕ) (d : ℕ)
    → AreDigits frac
    → IsNearest (rounded n frac d) (value_from n frac * ten_to d) (ten_to (length frac))
unfolding value_from pad_end
rounded-IsNearest n [] zero h = record { not_above = omega arith; not_below = omega arith }
rounded-IsNearest n (c ∷ cs) zero (p, h) =
    let t = ten_to (length cs) in
    elim (Bool-cases (leb 5 c)) [
      | inl up ↦ rw up (record {
        not_above = omega (arith, value_from_lem (n * 10 + c) cs, mul_le 5 c t (ground arith));
        not_below = omega (arith, value_from_lem (n * 10 + c) cs, value-lt cs h, digit_lt c t p);
      })
      | inr down ↦ rw down (record {
        not_above = omega (arith, value_from_lem (n * 10 + c) cs);
        not_below =
            omega
              (arith, value_from_lem (n * 10 + c) cs, value-lt cs h, mul_le c 4 t (ground arith));
      })
    ]
rounded-IsNearest n [] (suc d) h =
    let nearest = rounded-IsNearest (n * 10 + 0) [] d h in
    record {
      not_above = omega (arith, nearest.not_above, rounded-nil n d);
      not_below = omega (arith, nearest.not_below, rounded-nil n d);
    }
rounded-IsNearest n (c ∷ cs) (suc d) (p, h) =
    let nearest = rounded-IsNearest (n * 10 + c) cs d h in
    record {
      not_above = omega (arith, nearest.not_above);
      not_below = omega (arith, nearest.not_below);
    }

-- The amount, of `int_part` and the digits of its fraction, in units of which `10 ^ decimals` make
-- one: the nearest whole number, with a tie up.
pub scale_to_minor_units-IsNearest :
    (int_part frac_raw : List ℕ) (decimals : ℕ)
    → AreDigits frac_raw
    → IsNearest
        (scale_to_minor_units int_part frac_raw decimals)
        (value (int_part ++ frac_raw) * ten_to decimals)
        (ten_to (length frac_raw))
unfolding scale_to_minor_units
scale_to_minor_units-IsNearest int_part frac_raw decimals h =
    rw
      (
        value-append 0 int_part frac_raw,
        value-append 0 int_part (pad_end decimals (take decimals frac_raw)),
      )
      (rounded-IsNearest (value int_part) frac_raw decimals h)
