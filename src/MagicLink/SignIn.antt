-- ===== src/MagicLink/SignIn.antt =====
-- packages/auth-magic-link/src/index.ts: `startSignIn` and `handleCallback`. Texts of addresses
-- are code points. Parameters: the host's `resolveEmail` and `sendEmail`, over a state of theirs,
-- `String.toLowerCase`, the address of the link for a token (the URL class), and the random token
-- and the time of a call.
pub mod Flow
use theokit_plugins.Common.{
  ℕ, ◌+◌, String, Bool, true, false, not, Option, none, some, List, [], ◌∷◌, ◌&&◌, ◌||◌, reverse,
  nat_beq, if◌then◌else◌, ◌==◌, string_eq,
}
use theokit_plugins.Common.Text.{is_space, skip_spaces}
use theokit_plugins.Common.Async.{Attempt, Async, returned, threw, ◌>>=◌, ◌>>◌, pure, throw}
use theokit_plugins.MagicLink.Store.{TokenRecord, MagicLinkStore}

-- `MagicLinkConfigError` and `MagicLinkAuthError`, and what the host's functions throw.
pub data SignInError (F : Type 0) : Type 0 where
  invalid_email missing_token invalid_or_expired_token : SignInError F
  host_error : F → SignInError F

-- `s.trim()`
unfoldable pub trim : List ℕ → List ℕ
trim s = reverse (skip_spaces (reverse (skip_spaces s)))

-- `EMAIL_GUARD`, `/^[^\s@]+@[^\s@]+\.[^\s@]+$/`: the part after the sign has a dot with something
-- on both sides of it.
abbrev plain : List ℕ → Bool
plain [] = true
plain (c ∷ cs) = not (is_space c) && not (nat_beq c b'@') && plain cs

abbrev dot_inside : List ℕ → Bool
dot_inside [] = false
dot_inside (c ∷ []) = false
dot_inside (c ∷ d ∷ ds) = nat_beq c b'.' || dot_inside (d ∷ ds)

abbrev domain_ok : List ℕ → Bool
domain_ok [] = false
domain_ok (c ∷ cs) = plain (c ∷ cs) && dot_inside cs

unfoldable pub email_guard : (started : Bool) → List ℕ → Bool
email_guard started [] = false
email_guard started (c ∷ cs) =
    let rest = email_guard true cs in
    if nat_beq c b'@' then started && domain_ok cs else if is_space c then false else rest

abbrev guarded : List ℕ → Option (List ℕ)
guarded s = if email_guard false s then some s else none

abbrev if_some_text : List ℕ → Option (List ℕ) → Option (List ℕ)
if_some_text [] o = none
if_some_text (c ∷ cs) o = o

-- `validateEmail`; `none` for the error.
unfoldable pub validate_email : (List ℕ → List ℕ) → Option (List ℕ) → Option (List ℕ)
unfolding email_guard trim
validate_email to_lower_case none = none
validate_email to_lower_case (some email) =
    if_some_text (trim email) (guarded (trim (to_lower_case email)))

pub record Profile : Type 0 where
  pub email : List ℕ
  pub verified_at : ℕ

pub record Message : Type 0 where
  pub to : List ℕ
  pub magic_link_url : String
  pub expires_at : ℕ
  pub token : String

-- `MagicLinkProviderOptions`
pub record Options (S M F : Type 0) : Type 0 where
  pub store : MagicLinkStore S F
  pub send_email : Message → Async M F (Unit {0})
  pub resolve_email : Async M F (Option (List ℕ))
  pub to_lower_case : List ℕ → List ℕ
  pub link_for : String → String
  pub check_page : String
  pub lifetime : ℕ

abbrev pub raised : {F A : Type 0} → Attempt F A → Attempt (SignInError F) A
raised (returned a) = returned a
raised (threw e) = threw (host_error e)

module _ {S M F : Type 0} (opts : Options S M F) where
  abbrev pub on_store : {A : Type 0} → Async S F A → Async (S × M) (SignInError F) A
  on_store m (s, h) = let (r, s') = m s in (raised r, (s', h))

  abbrev pub on_host : {A : Type 0} → Async M F A → Async (S × M) (SignInError F) A
  on_host m (s, h) = let (r, h') = m h in (raised r, (s, h'))

  abbrev pub valid_or_throw : Option (List ℕ) → Async (S × M) (SignInError F) (List ℕ)
  valid_or_throw none = throw invalid_email
  valid_or_throw (some email) = pure email

  abbrev pub issue : String → ℕ → List ℕ → Async (S × M) (SignInError F) String
  issue token expires_at email =
      on_store (opts.store.create_token email token expires_at)
      >> (on_host (
            opts.send_email (record {
              to = email;
              magic_link_url = opts.link_for token;
              expires_at = expires_at;
              token = token;
            }))
          >> pure opts.check_page)

  -- `startSignIn`; the result is the address to go to.
  unfoldable pub start_sign_in : (token : String) → (now : ℕ) → Async (S × M) (SignInError F) String
  unfolding validate_email
  start_sign_in token now = on_host opts.resolve_email >>= (λ raw.
      valid_or_throw (validate_email opts.to_lower_case raw) >>= issue token (now + opts.lifetime))

  abbrev pub profile_or_throw : ℕ → Option TokenRecord → Async (S × M) (SignInError F) Profile
  profile_or_throw now none = throw invalid_or_expired_token
  profile_or_throw now (some r) = pure (record { email = r.email; verified_at = now })

  -- `handleCallback`, of the query's token; an empty one counts as missing.
  unfoldable pub handle_callback : Option String → (now : ℕ) → Async (S × M) (SignInError F) Profile
  handle_callback none now w = (threw missing_token, w)
  handle_callback (some token) now w =
      if token == ""
      then (threw missing_token, w)
      else (on_store (opts.store.consume_token token now) >>= profile_or_throw now) w
