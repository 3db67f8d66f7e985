-- ===== src/Payments/Currency/Charge.antt =====
-- What is charged for an amount, in each kind of currency.
use theokit_plugins.Common.{
  ℕ, ◌+◌, ◌*◌, ◌/◌, ◌%◌, ◌≤◌, ◌<◌, String, Bool, true, false, Option, none, some, List, [], ◌∷◌,
  ◌++◌, length, ◌≡◌, ◌≢◌, ap, refl, arith, Bool-cases, ◌⊎◌, inl, inr, nat_beq, ltb,
}
use theokit_plugins.Common.Async.{Attempt, returned, threw}
use theokit_plugins.Payments.Currency.{
  Amount, not_finite, negative, exponential, plain, RangeError, unsafe_minor_units,
  zero_decimal_currencies, three_decimal_currencies, among, max_safe_integer, value,
  scale_to_minor_units, to_multiple_of_ten, assert_safe_minor_units, whole_amount, scaled_amount,
  format_amount_for_stripe,
}
use theokit_plugins.Payments.Currency.Rounding.{
  AreDigits, ten_to, IsNearest, scale_to_minor_units-IsNearest,
}

-- `m` is what is charged, unless it is above `Number.MAX_SAFE_INTEGER`.
abbrev pub IsGuarded : ℕ → Attempt RangeError ℕ → Type 0
IsGuarded m result =
    ((m ≤ max_safe_integer) × (result ≡ returned m))
    ⊎ ((max_safe_integer < m) × (result ≡ threw unsafe_minor_units))

assert_safe_minor_units-IsGuarded : (m : ℕ) → IsGuarded m (assert_safe_minor_units m)
unfolding assert_safe_minor_units
assert_safe_minor_units-IsGuarded m = elim (Bool-cases (ltb max_safe_integer m)) [
  | inl above ↦ rw above (inr (ground arith, refl))
  | inr within ↦ rw within (inl (ground arith, refl))
]

to_multiple_of_ten-IsNearest :
    (m : ℕ) → (r : ℕ) × (to_multiple_of_ten m ≡ r * 10) × IsNearest r m 10
unfolding to_multiple_of_ten
to_multiple_of_ten-IsNearest m = elim (Bool-cases (nat_beq (m % 10) 0)) [
  | inl multiple ↦
      let exact : m % 10 ≡ 0 = ground arith in
      rw multiple (m / 10, omega arith, record { not_above = omega arith; not_below = omega arith })
  | inr between ↦
      rw between ((m + 5) / 10, refl, record { not_above = omega arith; not_below = omega arith })
]

-- The charge of an amount with `decimals` digits of minor units: the nearest whole number of
-- units, and with three digits that number to the nearest ten; both with a tie up.
abbrev pub IsCharge : (three : Bool) → (int_part frac_raw : List ℕ) → Attempt RangeError ℕ → Type 0
IsCharge false int_part frac_raw result =
    (m : ℕ) × IsNearest m (value (int_part ++ frac_raw) * 100) (ten_to (length frac_raw))
    × IsGuarded m result
IsCharge true int_part frac_raw result =
    (m : ℕ) × IsNearest m (value (int_part ++ frac_raw) * 1000) (ten_to (length frac_raw))
    × ((r : ℕ) × IsNearest r m 10 × IsGuarded (r * 10) result)

scaled_amount-IsCharge :
    (three : Bool) (int_part frac_raw : List ℕ)
    → AreDigits frac_raw
    → IsCharge three int_part frac_raw (scaled_amount three (plain int_part frac_raw))
scaled_amount-IsCharge false int_part frac_raw h =
    let m = scale_to_minor_units int_part frac_raw 2 in
    (m, scale_to_minor_units-IsNearest int_part frac_raw 2 h, assert_safe_minor_units-IsGuarded m)
scaled_amount-IsCharge true int_part frac_raw h =
    let m = scale_to_minor_units int_part frac_raw 3 in
    let (r, e, nearest) = to_multiple_of_ten-IsNearest m in
    (
      m,
      scale_to_minor_units-IsNearest int_part frac_raw 3 h,
      (r, nearest, rw e (assert_safe_minor_units-IsGuarded (r * 10))),
    )

-- The amount as a whole number, if it is one.
abbrev pub whole_of : Amount → Option ℕ
whole_of not_finite = none
whole_of negative = none
whole_of (exponential whole) = whole
whole_of (plain int_part []) = some (value int_part)
whole_of (plain int_part (d ∷ ds)) = none

-- Nothing is charged that is no number, below zero or above `Number.MAX_SAFE_INTEGER`.
abbrev pub IsProper : Amount → ℕ → Type 0
IsProper amount m = (amount ≢ not_finite) × (amount ≢ negative) × (m ≤ max_safe_integer)

assert_safe_minor_units-returned :
    (n m : ℕ) → assert_safe_minor_units n ≡ returned m → (n ≡ m) × (m ≤ max_safe_integer)
unfolding assert_safe_minor_units
assert_safe_minor_units-returned n m e = ground arith

whole_amount-IsProper :
    (amount : Amount) (m : ℕ)
    → whole_amount amount ≡ returned m
    → IsProper amount m × (whole_of amount ≡ some m)
whole_amount-IsProper not_finite m e = cc
whole_amount-IsProper negative m e = cc
whole_amount-IsProper (exponential none) m e = cc
whole_amount-IsProper (exponential (some n)) m e =
    let (same, safe) = assert_safe_minor_units-returned n m e in
    (((λ h. cc), (λ h. cc), safe), ap some same)
whole_amount-IsProper (plain int_part []) m e =
    let (same, safe) = assert_safe_minor_units-returned (value int_part) m e in
    (((λ h. cc), (λ h. cc), safe), ap some same)
whole_amount-IsProper (plain int_part (d ∷ ds)) m e = cc

scaled_amount-IsProper :
    (three : Bool) (amount : Amount) (m : ℕ)
    → scaled_amount three amount ≡ returned m
    → IsProper amount m
scaled_amount-IsProper three not_finite m e = cc
scaled_amount-IsProper three negative m e = cc
scaled_amount-IsProper three (exponential whole) m e = cc
scaled_amount-IsProper true (plain int_part frac_raw) m e =
    ((λ h. cc), (λ h. cc), (assert_safe_minor_units-returned _ m e).1)
scaled_amount-IsProper false (plain int_part frac_raw) m e =
    ((λ h. cc), (λ h. cc), (assert_safe_minor_units-returned _ m e).1)

module _ (to_lower_case : String → String) where
  -- In a currency that has minor units, an amount that is written in digits is charged at the
  -- nearest whole number of hundredths, or of thousandths and that number to the nearest ten, with
  -- every tie up, unless that is above `Number.MAX_SAFE_INTEGER`, when it throws.
  pub format_amount_for_stripe-IsCharge :
      (int_part frac_raw : List ℕ) (currency : String)
      → AreDigits frac_raw
      → among (to_lower_case currency) zero_decimal_currencies ≡ false
      → IsCharge
          (among (to_lower_case currency) three_decimal_currencies)
          int_part
          frac_raw
          (format_amount_for_stripe to_lower_case (plain int_part frac_raw) currency)
  unfolding format_amount_for_stripe
  format_amount_for_stripe-IsCharge int_part frac_raw currency h minor =
      rw minor (scaled_amount-IsCharge _ int_part frac_raw h)

  -- A charge is never of an amount that is not finite or is below zero, nor above
  -- `Number.MAX_SAFE_INTEGER`, and in a currency without minor units it is the amount itself.
  pub format_amount_for_stripe-IsProper :
      (amount : Amount) (currency : String) (m : ℕ)
      → format_amount_for_stripe to_lower_case amount currency ≡ returned m
      → IsProper amount m
        × (among (to_lower_case currency) zero_decimal_currencies ≡ true → whole_of amount ≡ some m)
  unfolding format_amount_for_stripe
  format_amount_for_stripe-IsProper amount currency m e =
      let code = to_lower_case currency in
      elim (Bool-cases (among code zero_decimal_currencies)) [
        | inl zero ↦
            let (proper, same) = whole_amount-IsProper amount m (rw zero at e) in
            (proper, (λ h. same))
        | inr minor ↦ (
          scaled_amount-IsProper (among code three_decimal_currencies) amount m (rw minor at e),
          (λ h. absurd (ground arith)),
        )
      ]
