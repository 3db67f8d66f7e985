-- ===== src/Copilot/Name.antt =====
-- packages/plugin-copilot/src/internal/budget-bridge.ts, `budgetNameFor`: the name of a room's
-- budget, over code points. The shift of the source is taken modulo 2 ^ 32 with the sum.
pub mod Valid
use theokit_plugins.Common.{
  ℕ, zero, suc, ◌+◌, ◌*◌, ◌/◌, ◌%◌, ◌^◌, ◌-◌, String, Bool, true, false, not, Option, none, some,
  List, [], ◌∷◌, ◌++◌, ◌&&◌, ◌||◌, take, leb, ltb, nat_beq, if◌then◌else◌,
}
use theokit_plugins.Common.Text.{codes, lower}

-- `raw.charCodeAt(i)`, for every i: the UTF-16 units.
abbrev pub utf16 : List ℕ → List ℕ
utf16 [] = []
utf16 (c ∷ cs) =
    if ltb c 0x10000
    then c ∷ utf16 cs
    else (0xd800 + (c - 0x10000) / 0x400) ∷ (0xdc00 + (c - 0x10000) % 0x400) ∷ utf16 cs

-- The loop over the units; `hash` is 5381 at first.
unfoldable pub hash_from : ℕ → List ℕ → ℕ
hash_from hash [] = hash
hash_from hash (c ∷ cs) = hash_from ((hash * 32 + hash + c) % 2 ^ 32) cs

abbrev pub digit : ℕ → ℕ
digit d = if ltb d 10 then 48 + d else 87 + d

-- `hash.toString(36)`; a 32-bit number has at most seven digits.
unfoldable pub base36 : (fuel : ℕ) → ℕ → List ℕ
base36 zero n = digit (n % 36) ∷ []
base36 (suc fuel) n =
    let front = base36 fuel (n / 36) in
    if ltb n 36 then digit n ∷ [] else front ++ digit (n % 36) ∷ []

-- `[a-z0-9]` and `[a-z0-9_-]`
abbrev pub is_alnum : ℕ → Bool
is_alnum c = (leb b'a' c && leb c b'z') || (leb b'0' c && leb c b'9')

abbrev pub is_name_char : ℕ → Bool
is_name_char c = is_alnum c || nat_beq c b'_' || nat_beq c b'-'

-- `toLowerCase`, as far as the next replacement sees it: of the letters that are not ASCII, two
-- have ASCII letters in their lower case.
abbrev pub lower_of : ℕ → List ℕ
lower_of c =
    if nat_beq c 0x212a
    then b'k' ∷ []
    else if nat_beq c 0x130
    then b'i' ∷ 0x307 ∷ []
    else lower c ∷ []

abbrev pub lower_all : List ℕ → List ℕ
lower_all [] = []
lower_all (c ∷ cs) = lower_of c ++ lower_all cs

-- `.replace(/[^a-z0-9_-]+/g, '-')`; `in_run` tells that the run's dash is written.
unfoldable pub dashed : (in_run : Bool) → List ℕ → List ℕ
dashed in_run [] = []
dashed in_run (c ∷ cs) =
    let kept = dashed false cs in
    let skipped = dashed true cs in
    if is_name_char c then c ∷ kept else if in_run then skipped else b'-' ∷ skipped

-- `.replace(/^-+/, '')`
unfoldable pub undash : List ℕ → List ℕ
undash [] = []
undash (c ∷ cs) = let rest = undash cs in if nat_beq c b'-' then rest else c ∷ cs

-- `readable.length > 0 ? readable.slice(0, 48) : 'copilot'`
abbrev pub prefix_of : List ℕ → List ℕ
prefix_of [] = codes "copilot"
prefix_of (c ∷ cs) = take 48 (c ∷ cs)

abbrev pub all_of : (ℕ → Bool) → List ℕ → Bool
all_of p [] = true
all_of p (c ∷ cs) = p c && all_of p cs

-- `SDK_NAME_OK`
unfoldable pub sdk_name_ok : List ℕ → Bool
sdk_name_ok [] = false
sdk_name_ok (c ∷ cs) = is_alnum c && all_of is_name_char cs

abbrev pub raw_key : List ℕ → List ℕ → List ℕ
raw_key copilot_id room_id = copilot_id ++ b':' ∷ room_id

unfoldable pub derived_name : List ℕ → List ℕ → List ℕ
unfolding hash_from base36 dashed undash
derived_name copilot_id room_id =
    let raw = raw_key copilot_id room_id in
    prefix_of (undash (dashed false (lower_all raw)))
    ++ b'-' ∷ base36 6 (hash_from 5381 (utf16 raw))

-- A name outside the grammar is an error (`none`).
unfoldable pub budget_name_for : List ℕ → List ℕ → Option (List ℕ)
unfolding derived_name sdk_name_ok
budget_name_for copilot_id room_id =
    let name = derived_name copilot_id room_id in if sdk_name_ok name then some name else none
