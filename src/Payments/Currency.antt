-- ===== src/Payments/Currency.antt =====
-- packages/plugin-payments/src/currency.ts, `formatAmountForStripe`. An amount is what
-- `amount.toString()` writes of it, in decimal digits. Sums of digits are exact: up to
-- `Number.MAX_SAFE_INTEGER` the language's numbers are exact too, and above it both throw.
pub mod Rounding
pub mod Charge
use theokit_plugins.Common.{
  ℕ, zero, suc, ◌+◌, ◌*◌, ◌-◌, ◌/◌, ◌%◌, ◌^◌, String, Bool, true, false, Option, none, some, List,
  [], ◌∷◌, ◌++◌, length, take, any, get_elem?, if◌then◌else◌, leb, ltb, nat_beq, ◌==◌, string_eq,
}
use theokit_plugins.Common.Async.{Attempt, returned, threw}

abbrev pub zero_decimal_currencies : List String
zero_decimal_currencies =
    "bif" ∷ "clp" ∷ "djf" ∷ "gnf" ∷ "jpy" ∷ "kmf" ∷ "krw" ∷ "mga" ∷ "pyg" ∷ "rwf" ∷ "vnd" ∷ "vuv"
    ∷ "xaf" ∷ "xof" ∷ "xpf" ∷ []

abbrev pub three_decimal_currencies : List String
three_decimal_currencies = "bhd" ∷ "jod" ∷ "kwd" ∷ "omr" ∷ "tnd" ∷ []

unfoldable pub among : String → List String → Bool
among s set = any (λ t. t == s) set

abbrev pub max_safe_integer : ℕ
max_safe_integer = 9_007_199_254_740_991

-- A number: not finite, below zero, written with an exponent (with its value, if it is whole), or
-- written as digits and digits of a fraction.
pub data Amount : Type 0 where
  not_finite negative : Amount
  exponential : (whole : Option ℕ) → Amount
  plain : (int_part frac_raw : List ℕ) → Amount

pub data RangeError : Type 0 where
  amount_not_finite amount_negative amount_not_integer out_of_range unsafe_minor_units : RangeError

-- `Number` of a text of digits, and `padEnd` with zeros.
unfoldable pub value_from : ℕ → List ℕ → ℕ
value_from n [] = n
value_from n (d ∷ ds) = value_from (n * 10 + d) ds

abbrev pub value : List ℕ → ℕ
value ds = value_from 0 ds

unfoldable pub pad_end : ℕ → List ℕ → List ℕ
pad_end zero ds = ds
pad_end (suc n) [] = 0 ∷ pad_end n []
pad_end (suc n) (d ∷ ds) = d ∷ pad_end n ds

abbrev pub at_least_five : Option ℕ → Bool
at_least_five none = false
at_least_five (some d) = leb 5 d

-- `scaleToMinorUnits`, past its test for an exponent.
unfoldable pub scale_to_minor_units : (int_part frac_raw : List ℕ) → (decimals : ℕ) → ℕ
unfolding value_from pad_end
scale_to_minor_units int_part frac_raw decimals =
    let keep = pad_end decimals (take decimals frac_raw) in
    let round_up = at_least_five (get_elem? frac_raw decimals) in
    let base = value (int_part ++ keep) in if round_up then base + 1 else base

-- `Math.round(minor / 10) * 10`, unless it is a multiple already.
unfoldable pub to_multiple_of_ten : ℕ → ℕ
to_multiple_of_ten minor = if nat_beq (minor % 10) 0 then minor else ((minor + 5) / 10) * 10

-- `assertSafeMinorUnits`
unfoldable pub assert_safe_minor_units : ℕ → Attempt RangeError ℕ
assert_safe_minor_units minor =
    if ltb max_safe_integer minor then threw unsafe_minor_units else returned minor

-- The zero-decimal case.
abbrev pub whole_amount : Amount → Attempt RangeError ℕ
whole_amount not_finite = threw amount_not_finite
whole_amount negative = threw amount_negative
whole_amount (exponential none) = threw amount_not_integer
whole_amount (exponential (some n)) = assert_safe_minor_units n
whole_amount (plain int_part []) = assert_safe_minor_units (value int_part)
whole_amount (plain int_part (d ∷ ds)) = threw amount_not_integer

-- The other two cases.
abbrev pub scaled_amount : (three : Bool) → Amount → Attempt RangeError ℕ
scaled_amount three not_finite = threw amount_not_finite
scaled_amount three negative = threw amount_negative
scaled_amount three (exponential whole) = threw out_of_range
scaled_amount true (plain int_part frac_raw) =
    assert_safe_minor_units (to_multiple_of_ten (scale_to_minor_units int_part frac_raw 3))
scaled_amount false (plain int_part frac_raw) =
    assert_safe_minor_units (scale_to_minor_units int_part frac_raw 2)

module _ (to_lower_case : String → String) where
  -- `formatAmountForStripe`
  unfoldable pub format_amount_for_stripe : Amount → (currency : String) → Attempt RangeError ℕ
  unfolding value_from assert_safe_minor_units to_multiple_of_ten scale_to_minor_units among
  format_amount_for_stripe amount currency =
      let code = to_lower_case currency in
      if among code zero_decimal_currencies
      then whole_amount amount
      else scaled_amount (among code three_decimal_currencies) amount
