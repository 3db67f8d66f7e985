-- ===== src/Copilot/Name/Valid.antt =====
-- The name is never outside the grammar, and its digits are those of the hash.
use theokit_plugins.Common.{
  ℕ, zero, suc, ◌+◌, ◌*◌, ◌/◌, ◌%◌, ◌^◌, ◌<◌, ◌-◌, Bool-cases, inl, inr, Bool, true, false, some,
  List, [], ◌∷◌, ◌++◌, ◌&&◌, ◌||◌, take, ltb, leb, nat_beq, if◌then◌else◌, ◌≡◌, refl, arith, All,
  All-append, All-take,
}
use theokit_plugins.Common.Text.{lower}
use theokit_plugins.Copilot.Name.{
  utf16, hash_from, digit, base36, is_alnum, is_name_char, lower_all, dashed, undash, all_of,
  sdk_name_ok, raw_key, derived_name, budget_name_for,
}

abbrev pub undigit : ℕ → ℕ
undigit c = if ltb c 97 then c - 48 else c - 87

-- The number that a row of digits writes, the highest first.
abbrev pub value_of : ℕ → List ℕ → ℕ
value_of n [] = n
value_of n (c ∷ cs) = value_of (n * 36 + undigit c) cs

abbrev pub below : ℕ → ℕ
below zero = 36
below (suc f) = 36 * below f

value_of-snoc :
    (n : ℕ) (cs : List ℕ) (c : ℕ) → value_of n (cs ++ c ∷ []) ≡ value_of n cs * 36 + undigit c
value_of-snoc n [] c = refl
value_of-snoc n (d ∷ cs) c = value_of-snoc (n * 36 + undigit d) cs c

undigit-digit : (d : ℕ) → d < 36 → undigit (digit d) ≡ d
undigit-digit d h = ground arith

-- A number below 36 ^ (fuel + 1) is written in full.
pub value_of-base36 : (fuel n : ℕ) → n < below fuel → value_of 0 (base36 fuel n) ≡ n
unfolding base36
value_of-base36 zero n h = ground (arith, undigit-digit n)
value_of-base36 (suc fuel) n h = ground (
  arith,
  value_of-base36 fuel (n / 36),
  value_of-snoc 0 (base36 fuel (n / 36)) (digit (n % 36)),
  undigit-digit (n % 36),
  undigit-digit n,
)

below-hash : (h : ℕ) (cs : List ℕ) → h < 2 ^ 32 → hash_from h cs < 2 ^ 32
unfolding hash_from
below-hash h [] b = b
below-hash h (c ∷ cs) b = below-hash ((h * 32 + h + c) % 2 ^ 32) cs (omega arith)

-- The digits that end a name write the room's 32-bit hash in full.
pub base36-hash_from :
    (raw : List ℕ)
    → (hash_from 5381 raw < 2 ^ 32)
      × (value_of 0 (base36 6 (hash_from 5381 raw)) ≡ hash_from 5381 raw)
base36-hash_from raw =
    let b = below-hash 5381 raw (omega arith) in
    (b, value_of-base36 6 (hash_from 5381 raw) (omega (arith, b)))

abbrev IsNameChars : List ℕ → Type 0
IsNameChars = All (λ c. is_name_char c ≡ true)

dashed-IsNameChars : (r : Bool) (cs : List ℕ) → IsNameChars (dashed r cs)
unfolding dashed
dashed-IsNameChars r [] = tt
dashed-IsNameChars r (c ∷ cs) =
    ground (arith, dashed-IsNameChars true cs, dashed-IsNameChars false cs)

undash-IsNameChars : (cs : List ℕ) → IsNameChars cs → IsNameChars (undash cs)
unfolding undash
undash-IsNameChars [] h = tt
undash-IsNameChars (c ∷ cs) (p, h) = ground (arith, undash-IsNameChars cs h)

digit-is_name_char : (d : ℕ) → d < 36 → is_name_char (digit d) ≡ true
digit-is_name_char d h = ground arith

base36-IsNameChars : (fuel n : ℕ) → IsNameChars (base36 fuel n)
unfolding base36
base36-IsNameChars zero n = (digit-is_name_char (n % 36) (omega arith), tt)
base36-IsNameChars (suc fuel) n = elim (Bool-cases (ltb n 36)) [
  | inl small ↦ rw small (digit-is_name_char n (ground arith), tt)
  | inr large ↦ rw large (
      All-append _ (base36 fuel (n / 36)) (digit (n % 36) ∷ []) (base36-IsNameChars fuel (n / 36))
        (digit-is_name_char (n % 36) (omega arith), tt))
]

-- A letter that stands first stays first.
abbrev pub is_letter : ℕ → Bool
is_letter c = (leb b'a' c && leb c b'z') || (leb b'A' c && leb c b'Z')

lower_letter :
    (c : ℕ) → is_letter c ≡ true → (lower_all (c ∷ []) ≡ lower c ∷ []) × (is_alnum (lower c) ≡ true)
lower_letter c h = ground arith

is_alnum-is_name_char : (c : ℕ) → is_alnum c ≡ true → is_name_char c ≡ true
is_alnum-is_name_char c h = ground arith

not_dash : (c : ℕ) → is_alnum c ≡ true → nat_beq c b'-' ≡ false
not_dash c h = ground arith

-- What a letter in front becomes.
front_letter :
    (c : ℕ) (cs : List ℕ)
    → is_letter c ≡ true
    → (rest : List ℕ) × (undash (dashed false (lower_all (c ∷ cs))) ≡ lower c ∷ rest)
      × IsNameChars rest
unfolding dashed undash
front_letter c cs h =
    let (low, alnum) = lower_letter c h in
    (
      dashed false (lower_all cs),
      ground (arith, is_alnum-is_name_char (lower c) alnum, not_dash (lower c) alnum),
      dashed-IsNameChars false (lower_all cs),
    )

all_of-append :
    (xs ys : List ℕ) → IsNameChars xs → IsNameChars ys → all_of is_name_char (xs ++ ys) ≡ true
all_of-append [] [] k l = refl
all_of-append [] (y ∷ ys) k (p, l) = rw p (all_of-append [] ys tt l)
all_of-append (x ∷ xs) ys (p, k) l = rw p (all_of-append xs ys k l)

sdk_name_ok-append :
    (c : ℕ) (xs ys : List ℕ)
    → is_alnum c ≡ true
    → IsNameChars xs
    → IsNameChars ys
    → sdk_name_ok (c ∷ xs ++ ys) ≡ true
unfolding sdk_name_ok
sdk_name_ok-append c xs ys h k l = rw h (all_of-append xs ys k l)

-- For a copilot whose id begins with an ASCII letter, as every id that is defined does, the name
-- exists: the error for a name outside the grammar is not reached.
pub budget_name_for-total :
    (c : ℕ) (cs room_id : List ℕ)
    → is_letter c ≡ true
    → budget_name_for (c ∷ cs) room_id ≡ some (derived_name (c ∷ cs) room_id)
unfolding budget_name_for derived_name
budget_name_for-total c cs room_id h =
    let (rest, front, chars) = front_letter c (raw_key cs room_id) h in
    let hash = hash_from 5381 (utf16 (raw_key (c ∷ cs) room_id)) in
    rw
      (
        front,
        sdk_name_ok-append (lower c) (take 47 rest) (b'-' ∷ base36 6 hash) ((lower_letter c h).1)
            (All-take _ 47 rest chars) (refl, base36-IsNameChars 6 hash),
      )
      refl
