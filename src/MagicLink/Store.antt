-- ===== src/MagicLink/Store.antt =====
-- packages/auth-magic-link/src/store.ts: the stores of tokens. SHA-256 is the parameter `hash`,
-- and the time of a call, in milliseconds, an argument of it.
pub mod Once
use theokit_plugins.Common.{
  ℕ, suc, ◌+◌, String, Bool, true, false, not, Option, none, some, List, [], ◌∷◌, filter, leb,
  if◌then◌else◌, ◌==◌, string_eq,
}
use theokit_plugins.Common.Assoc.{Assoc, get, set, delete}
use theokit_plugins.Common.Async.{Async, returned, ◌>>=◌, pure}

-- `MemoryEntry` and `MagicLinkTokenRecord`
pub record TokenRecord : Type 0 where
  pub email : List ℕ
  pub expires_at : ℕ

pub record MagicLinkStore (S E : Type 0) : Type 0 where
  pub create_token : (email : List ℕ) → (token : String) → (expires_at : ℕ) → Async S E (Unit {0})
  pub consume_token : (token : String) → (now : ℕ) → Async S E (Option TokenRecord)
  pub revoke_token : (token : String) → Async S E (Unit {0})
  pub cleanup_expired : (now : ℕ) → Async S E ℕ

abbrev pub Tokens : Type 0
Tokens = Assoc String TokenRecord

-- `entry.expiresAt.getTime() <= Date.now()` is null, after the deletion.
abbrev pub unexpired : ℕ → TokenRecord → Option TokenRecord
unexpired now r = if leb r.expires_at now then none else some r

abbrev pub consume_entry : String → ℕ → Option TokenRecord → Tokens → Option TokenRecord × Tokens
consume_entry key now none tokens = (none, tokens)
consume_entry key now (some r) tokens = (unexpired now r, delete key tokens)

-- The loop of `cleanupExpired`: the entries that stay, and how many went.
unfoldable pub cleanup : ℕ → Tokens → ℕ × Tokens
cleanup now [] = (0, [])
cleanup now ((key, r) ∷ rest) =
    let (removed, left) = cleanup now rest in
    if leb r.expires_at now then (suc removed, left) else (removed, (key, r) ∷ left)

-- `createMemoryStore`
unfoldable pub memory_store : {E : Type 0} → (String → String) → MagicLinkStore Tokens E
unfolding cleanup
memory_store hash = record {
  create_token = λ email token expires_at tokens.
      (returned tt, set (hash token) (record { email = email; expires_at = expires_at }) tokens);
  consume_token = λ token now tokens.
      let (found, left) = consume_entry (hash token) now (get (hash token) tokens) tokens in
      (returned found, left);
  revoke_token = λ token tokens. (returned tt, delete (hash token) tokens);
  cleanup_expired =
      λ now tokens. let (removed, left) = cleanup now tokens in (returned removed, left);
}

pub record MagicLinkRepository (S E : Type 0) : Type 0 where
  pub insert : (token : String) → (email : List ℕ) → (expires_at : ℕ) → Async S E (Unit {0})
  pub consume_atomically : (token : String) → (now : ℕ) → Async S E (Option TokenRecord)
  pub delete_row : (token : String) → Async S E (Unit {0})
  pub delete_expired : (now : ℕ) → Async S E ℕ

abbrev if_unexpired : ℕ → Option TokenRecord → Option TokenRecord
if_unexpired now none = none
if_unexpired now (some r) = unexpired now r

-- `createOrmStore`; its two readings of the clock are one.
unfoldable pub create_orm_store :
    {S E : Type 0} → (String → String) → MagicLinkRepository S E → MagicLinkStore S E
create_orm_store hash repo = record {
  create_token = λ email token expires_at. repo.insert (hash token) email expires_at;
  consume_token = λ token now.
      repo.consume_atomically (hash token) now >>= (λ row. pure (if_unexpired now row));
  revoke_token = λ token. repo.delete_row (hash token);
  cleanup_expired = repo.delete_expired;
}
