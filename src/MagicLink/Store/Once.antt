-- ===== src/MagicLink/Store/Once.antt =====
-- A token works once, before it expires.
use theokit_plugins.Common.{
  ℕ, ◌+◌, ◌<◌, String, false, Option, none, some, List, [], ◌∷◌, length, if◌then◌else◌, ◌==◌,
  string_eq, ◌≡◌, ◌≢◌, refl, sym, ◌∙◌, arith, All, beq_ne, beq_self,
}
use theokit_plugins.Common.Assoc.{get, get-set, get-delete, Each}
use theokit_plugins.Common.Async.{returned}
use theokit_plugins.MagicLink.Store.{
  TokenRecord, Tokens, unexpired, consume_entry, cleanup, memory_store,
}

-- A call of the store by someone, at some time.
pub data Call : Type 0 where
  create : (email : List ℕ) → (token : String) → (expires_at : ℕ) → Call
  consume : (token : String) → (now : ℕ) → Call
  revoke : (token : String) → Call
  clean_up : (now : ℕ) → Call

module _ (hash : String → String) where
  -- The entry that is kept for a token.
  abbrev pub kept : Tokens → String → Option TokenRecord
  kept tokens token = get (hash token) tokens

  unfoldable pub call : Call → Tokens → Tokens
  call (create email token expires_at) tokens =
      ((memory_store {E = ⊥} hash).create_token email token expires_at tokens).1
  call (consume token now) tokens = ((memory_store {E = ⊥} hash).consume_token token now tokens).1
  call (revoke token) tokens = ((memory_store {E = ⊥} hash).revoke_token token tokens).1
  call (clean_up now) tokens = ((memory_store {E = ⊥} hash).cleanup_expired now tokens).1

  unfoldable pub run_calls : List Call → Tokens → Tokens
  unfolding call
  run_calls [] tokens = tokens
  run_calls (c ∷ cs) tokens = run_calls cs (call c tokens)

-- The call makes no token of the same digest.
abbrev pub LeavesOut : (hash : String → String) → String → Call → Type 0
LeavesOut hash token (create email other expires_at) = hash token ≢ hash other
LeavesOut hash token c = Unit

-- Consuming takes the entry away, in time or not, and no other.
consume_entry-get :
    (k j : String) (now : ℕ) (tokens : Tokens) (o : Option TokenRecord)
    → get k tokens ≡ o
    → get j (consume_entry k now o tokens).1 ≡ (if k == j then none else get j tokens)
consume_entry-get k j now tokens none missing = ground (arith, string_eq.beq_iff k j)
consume_entry-get k j now tokens (some r) found = get-delete k j tokens

cleanup-gone :
    (now : ℕ) (key : String) (tokens : Tokens)
    → get key tokens ≡ none
    → get key (cleanup now tokens).1 ≡ none
unfolding cleanup get
cleanup-gone now key [] gone = refl
cleanup-gone now key ((j, r) ∷ rest) gone = ground (arith, cleanup-gone now key rest)

-- The call spares a token that expires then: it is about one of another digest, or clears the
-- tokens that expired before.
abbrev pub Spares : (hash : String → String) → String → ℕ → Call → Type 0
Spares hash token expires_at (create email other e) = hash token ≢ hash other
Spares hash token expires_at (consume other now) = hash token ≢ hash other
Spares hash token expires_at (revoke other) = hash token ≢ hash other
Spares hash token expires_at (clean_up now) = now < expires_at

cleanup-found :
    (now : ℕ) (key : String) (r : TokenRecord) (tokens : Tokens)
    → get key tokens ≡ some r
    → now < r.expires_at
    → get key (cleanup now tokens).1 ≡ some r
unfolding cleanup get
cleanup-found now key r [] found lt = cc
cleanup-found now key r ((j, q) ∷ rest) found lt = ground (arith, cleanup-found now key r rest)

-- A clean-up counts what it removes, and leaves no token that has expired.
pub cleanup-count :
    (now : ℕ) (tokens : Tokens)
    → ((cleanup now tokens).0 + length (cleanup now tokens).1 ≡ length tokens)
      × Each (λ key r. now < r.expires_at) (cleanup now tokens).1
unfolding cleanup
cleanup-count now [] = (refl, tt)
cleanup-count now ((j, q) ∷ rest) = ground (arith, cleanup-count now rest)

module _ (hash : String → String) where
  apart : (a b : String) → hash a ≢ hash b → (hash a == hash b) ≡ false
  apart a b h = beq_ne (hash a) (hash b) h

  call-gone :
      (token : String) (c : Call) (tokens : Tokens)
      → LeavesOut hash token c
      → kept hash tokens token ≡ none
      → kept hash (call hash c tokens) token ≡ none
  unfolding call memory_store
  call-gone token (create email other expires_at) tokens leaves gone =
      rw (get-set, apart other token (λ e. leaves (sym e))) gone
  call-gone token (consume other now) tokens leaves gone =
      consume_entry-get (hash other) (hash token) now tokens (get (hash other) tokens) refl
      ∙ ground arith
  call-gone token (revoke other) tokens leaves gone =
      ground (arith, get-delete (hash other) (hash token) tokens)
  call-gone token (clean_up now) tokens leaves gone = cleanup-gone now (hash token) tokens gone

  run_calls-gone :
      (token : String) (cs : List Call) (tokens : Tokens)
      → All (LeavesOut hash token) cs
      → kept hash tokens token ≡ none
      → kept hash (run_calls hash cs tokens) token ≡ none
  unfolding run_calls
  run_calls-gone token [] tokens leaves gone = gone
  run_calls-gone token (c ∷ cs) tokens (l, leaves) gone =
      run_calls-gone token cs (call hash c tokens) leaves (call-gone token c tokens l gone)

  call-found :
      (token : String) (r : TokenRecord) (c : Call) (tokens : Tokens)
      → Spares hash token r.expires_at c
      → kept hash tokens token ≡ some r
      → kept hash (call hash c tokens) token ≡ some r
  unfolding call memory_store
  call-found token r (create email other e) tokens spared found =
      rw (get-set, apart other token (λ e. spared (sym e))) found
  call-found token r (consume other now) tokens spared found =
      consume_entry-get (hash other) (hash token) now tokens (get (hash other) tokens) refl
      ∙ rw (apart other token (λ e. spared (sym e))) found
  call-found token r (revoke other) tokens spared found =
      rw (get-delete, apart other token (λ e. spared (sym e))) found
  call-found token r (clean_up now) tokens spared found =
      cleanup-found now (hash token) r tokens found spared

  run_calls-found :
      (token : String) (r : TokenRecord) (cs : List Call) (tokens : Tokens)
      → All (Spares hash token r.expires_at) cs
      → kept hash tokens token ≡ some r
      → kept hash (run_calls hash cs tokens) token ≡ some r
  unfolding run_calls
  run_calls-found token r [] tokens spared found = found
  run_calls-found token r (c ∷ cs) tokens (p, spared) found =
      run_calls-found token r cs (call hash c tokens) spared (call-found token r c tokens p found)

  consumed :
      (token : String) (now : ℕ) (tokens : Tokens)
      → kept hash (call hash (consume token now) tokens) token ≡ none
  unfolding call memory_store
  consumed token now tokens =
      consume_entry-get (hash token) (hash token) now tokens (get (hash token) tokens) refl
      ∙ rw (beq_self (hash token)) refl

  created :
      (email : List ℕ) (token : String) (expires_at : ℕ) (tokens : Tokens)
      → kept hash (call hash (create email token expires_at) tokens) token
        ≡ some (record { email = email; expires_at = expires_at })
  unfolding call memory_store
  created email token expires_at tokens = rw (get-set, beq_self (hash token)) refl

  -- A token that was consumed, in time or not, is never consumed again, whatever is called in
  -- between, unless a token of the same digest is created.
  pub consume_token-once :
      {E : Type 0} (token : String) (now later : ℕ) (cs : List Call) (tokens : Tokens)
      → All (LeavesOut hash token) cs
      → ((memory_store {E = E} hash).consume_token token later
          (run_calls hash cs (call hash (consume token now) tokens))).0
        ≡ returned none
  unfolding memory_store
  consume_token-once token now later cs tokens leaves =
      rw
        (run_calls-gone token cs (call hash (consume token now) tokens) leaves
          (consumed token now tokens))
        refl

  -- A token that was created, and then spared by what is called in between (calls about tokens of
  -- other digests, and clean-ups before it expires), gives its e-mail
  -- address when it is consumed before it expires, and nothing from then on.
  pub consume_token-created :
      {E : Type 0} (email : List ℕ) (token : String) (expires_at now : ℕ) (cs : List Call)
      (tokens : Tokens)
      → All (Spares hash token expires_at) cs
      → ((memory_store {E = E} hash).consume_token token now
          (run_calls hash cs (call hash (create email token expires_at) tokens))).0
        ≡ returned (unexpired now (record { email = email; expires_at = expires_at }))
  unfolding memory_store
  consume_token-created email token expires_at now cs tokens spared =
      let r : TokenRecord = record { email = email; expires_at = expires_at } in
      let made = call hash (create email token expires_at) tokens in
      rw (run_calls-found token r cs made spared (created email token expires_at tokens)) refl
