-- ===== src/MagicLink/SignIn/Flow.antt =====
-- A sign-in from its start to its callback.
use theokit_plugins.Common.{
  ℕ, ◌+◌, String, false, Option, none, some, List, [], leb, if◌then◌else◌, ◌==◌, string_eq, ◌≡◌,
  refl, ap, ◌∙◌, arith,
}
use theokit_plugins.Common.Assoc.{get}
use theokit_plugins.Common.Async.{returned, threw}
use theokit_plugins.MagicLink.Store.{TokenRecord, Tokens, memory_store, consume_entry}
use theokit_plugins.MagicLink.Store.Once.{
  create, consume, call, run_calls, consume_token-once, consume_token-created,
}
use theokit_plugins.MagicLink.SignIn.{
  invalid_email, invalid_or_expired_token, validate_email, Message, Options, start_sign_in,
  profile_or_throw, handle_callback,
}

module _ {S M F : Type 0} (opts : Options S M F) where
  -- A request whose address is missing or malformed starts nothing: the store is as it was and
  -- no message is sent.
  pub start_sign_in-invalid :
      (token : String) (now : ℕ) (s : S) (m m' : M) (raw : Option (List ℕ))
      → opts.resolve_email m ≡ (returned raw, m')
      → validate_email opts.to_lower_case raw ≡ none
      → start_sign_in opts token now (s, m) ≡ (threw invalid_email, (s, m'))
  unfolding start_sign_in
  start_sign_in-invalid token now s m m' raw resolved bad = rw (resolved, bad) refl

module _ {M F : Type 0} (hash : String → String) (given : Options Tokens M F) where
  -- The options, with the store in memory.
  abbrev pub in_memory : Options Tokens M F
  in_memory = record given { store = memory_store hash }

  abbrev pub message : List ℕ → String → ℕ → Message
  message email token now = record {
    to = email;
    magic_link_url = given.link_for token;
    expires_at = now + given.lifetime;
    token = token;
  }

  start_sign_in-created :
      (token : String) (now : ℕ) (tokens : Tokens) (m m' m'' : M) (raw : Option (List ℕ))
      (email : List ℕ)
      → given.resolve_email m ≡ (returned raw, m')
      → validate_email given.to_lower_case raw ≡ some email
      → given.send_email (message email token now) m' ≡ (returned tt, m'')
      → start_sign_in in_memory token now (tokens, m) ≡ (
        returned given.check_page,
        (call hash (create email token (now + given.lifetime)) tokens, m''),
      )
  unfolding start_sign_in call memory_store
  start_sign_in-created token now tokens m m' m'' raw email resolved ok sent =
      rw (resolved, ok, sent) refl

  abbrev found_in : String → ℕ → Tokens → Option TokenRecord
  found_in token now tokens = (consume_entry (hash token) now (get (hash token) tokens) tokens).0

  profile_or_throw-keeps :
      (now : ℕ) (o : Option TokenRecord) (v w : Tokens × M)
      → ((profile_or_throw in_memory now o v).0 ≡ (profile_or_throw in_memory now o w).0)
        × ((profile_or_throw in_memory now o v).1 ≡ v)
  profile_or_throw-keeps now none v w = (refl, refl)
  profile_or_throw-keeps now (some r) v w = (refl, refl)

  handle_callback-consume :
      (token : String) (now : ℕ) (tokens : Tokens) (m : M)
      → (token == "") ≡ false
      → ((handle_callback in_memory (some token) now (tokens, m)).0
          ≡ (profile_or_throw in_memory now (found_in token now tokens) (tokens, m)).0)
        × ((handle_callback in_memory (some token) now (tokens, m)).1
            ≡ (call hash (consume token now) tokens, m))
  unfolding handle_callback call memory_store
  handle_callback-consume token now tokens m some_token = rw some_token (
      profile_or_throw-keeps now (found_in token now tokens)
        (call hash (consume token now) tokens, m) (tokens, m))

  callback_of :
      (token : String) (now : ℕ) (tokens : Tokens) (m : M) (o : Option TokenRecord)
      → (token == "") ≡ false
      → ((memory_store {E = F} hash).consume_token token now tokens).0 ≡ returned o
      → (handle_callback in_memory (some token) now (tokens, m)).0
        ≡ (profile_or_throw in_memory now o (tokens, m)).0
  unfolding memory_store
  callback_of token now tokens m o some_token e =
      let same : found_in token now tokens ≡ o = ground (arith, e) in
      (handle_callback-consume token now tokens m some_token).0
      ∙ ap (λ o. (profile_or_throw in_memory now o (tokens, m)).0) same

  -- A request with a valid address, whose message goes out, leads to the page that says so. The
  -- callback with its token, before the token expires, gives the profile of the address as it was
  -- validated; later it gives none; and after one callback, in time or not, every further one is
  -- refused.
  pub start_sign_in-handle_callback :
      (token : String) (now : ℕ) (tokens : Tokens) (m m' m'' : M) (raw : Option (List ℕ))
      (email : List ℕ)
      → (token == "") ≡ false
      → given.resolve_email m ≡ (returned raw, m')
      → validate_email given.to_lower_case raw ≡ some email
      → given.send_email (message email token now) m' ≡ (returned tt, m'')
      → let started = start_sign_in in_memory token now (tokens, m) in
        (started.0 ≡ returned given.check_page)
        × ((at : ℕ)
            → (handle_callback in_memory (some token) at started.1).0 ≡ (
                if leb (now + given.lifetime) at
                then threw invalid_or_expired_token
                else returned (record { email = email; verified_at = at })))
        × ((at later : ℕ)
            → (handle_callback in_memory
                (some token)
                later
                (handle_callback in_memory (some token) at started.1).1).0
              ≡ threw invalid_or_expired_token)
  unfolding call run_calls
  start_sign_in-handle_callback token now tokens m m' m'' raw email some_token resolved ok sent =
      let made = call hash (create email token (now + given.lifetime)) tokens in
      rw (start_sign_in-created token now tokens m m' m'' raw email resolved ok sent) (
        refl,
        (λ at.
            callback_of token at made m'' _ some_token
              (consume_token-created hash email token (now + given.lifetime) at [] tokens tt)
            ∙ ground arith),
        (λ at later.
            ap (λ w. (handle_callback in_memory (some token) later w).0)
              ((handle_callback-consume token at made m'' some_token).1)
            ∙ callback_of token later (call hash (consume token at) made) m'' none some_token
                (consume_token-once hash token at later [] made tt)),
      )
