-- ===== src/MagicLink/Tests.antt =====
-- A host with one address, and the theorems at it.
use theokit_plugins.Common.{
  ℕ, ◌+◌, String, false, Option, none, some, List, [], ◌∷◌, leb, if◌then◌else◌, ◌==◌, string_eq,
  ◌≡◌, ◌≢◌, refl, arith, map,
}
use theokit_plugins.Common.Assoc.{get, set, delete}
use theokit_plugins.Common.Async.{returned, threw}
use theokit_plugins.Common.Text.{codes, lower}
use theokit_plugins.MagicLink.Store.{Tokens, cleanup, memory_store, unexpired}
use theokit_plugins.MagicLink.Store.Once.{
  create, consume, clean_up, call, run_calls, consume_token-once, consume_token-created,
}
use theokit_plugins.MagicLink.SignIn.{
  invalid_or_expired_token, trim, email_guard, validate_email, Options, start_sign_in,
  handle_callback,
}
use theokit_plugins.MagicLink.SignIn.Flow.{in_memory, start_sign_in-handle_callback}

abbrev digest : String → String
digest s = s

apart : (a b : String) → (a == b) ≡ false → a ≢ b
apart a b h e = ground (arith, (string_eq.beq_iff a b).1 e, h)

abbrev ann : List ℕ
ann = codes "ann@example.org"

-- The host's state is the list of the tokens that it has sent.
abbrev host : Option (List ℕ) → Options Tokens (List String) String
host address = record {
  store = memory_store digest;
  send_email = λ message sent. (returned tt, message.token ∷ sent);
  resolve_email = λ sent. (returned address, sent);
  to_lower_case = map lower;
  link_for = λ token. token;
  check_page = "/auth/check-email";
  lifetime = 900000;
}

runs : Unit {0}
unfolding cleanup memory_store call run_calls trim email_guard validate_email start_sign_in
    handle_callback get set delete
runs = tt

validate_test :
    (validate_email (map lower) (some (codes " Ann@Example.org ")) ≡ some ann)
    × (validate_email (map lower) (some (codes "ann@example")) ≡ none)
    × (validate_email (map lower) (some (codes "ann@@example.org")) ≡ none)
    × (validate_email (map lower) (some (codes "  ")) ≡ none)
unfolding runs
validate_test = (refl, refl, refl, refl)

abbrev two : Tokens
two =
    ("a", record { email = ann; expires_at = 5 })
    ∷ ("b", record { email = ann; expires_at = 9 })
    ∷ []

consume_token-once_example :
    ((memory_store {E = String} digest).consume_token "a" 4
      (run_calls digest (create ann "c" 9 ∷ clean_up 3 ∷ []) (call digest (consume "a" 2) two))).0
    ≡ returned none
consume_token-once_example =
    consume_token-once digest {E = String} "a" 2 4 (create ann "c" 9 ∷ clean_up 3 ∷ []) two
      (apart "a" "c" refl, (tt, tt))

consume_token-created_example :
    ((memory_store {E = String} digest).consume_token "c" 8
      (run_calls digest (consume "a" 2 ∷ clean_up 6 ∷ []) (call digest (create ann "c" 9) two))).0
    ≡ returned (unexpired 8 (record { email = ann; expires_at = 9 }))
consume_token-created_example =
    consume_token-created digest {E = String} ann "c" 9 8 (consume "a" 2 ∷ clean_up 6 ∷ []) two
      (apart "c" "a" refl, (omega arith, tt))

start_sign_in-handle_callback_example :
    let kept = in_memory digest (host (some ann)) in
    let started = start_sign_in kept "t" 100 (two, []) in
    (started.0 ≡ returned "/auth/check-email")
    × ((at : ℕ)
        → (handle_callback kept (some "t") at started.1).0 ≡ (
            if leb (100 + 900000) at
            then threw invalid_or_expired_token
            else returned (record { email = ann; verified_at = at })))
    × ((at later : ℕ)
        → (handle_callback kept (some "t") later (handle_callback kept (some "t") at started.1).1).0
          ≡ threw invalid_or_expired_token)
unfolding runs
start_sign_in-handle_callback_example =
    start_sign_in-handle_callback digest (host (some ann)) "t" 100 two [] [] ("t" ∷ []) (some ann)
      ann refl refl refl refl
