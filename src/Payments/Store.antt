-- ===== src/Payments/Store.antt =====
-- packages/plugin-payments/src/idempotency-store.ts: the contract, the in-memory store and the
-- store over a repository. `seen` is the `Set`, `inflight` the `Map` of pending claims, whose
-- promises are named by the caller that made them.
pub mod Laws
use theokit_plugins.Common.{
  ℕ, String, Bool, true, false, not, Option, none, some, List, [], ◌∷◌, any, filter, ◌==◌,
  if◌then◌else◌, string_eq,
}
use theokit_plugins.Common.Assoc.{Assoc, get, set, delete, has}
use theokit_plugins.Common.Async.{Async, ◌>>=◌, ◌>>◌, pure, returned}

pub record IdempotencyStore (S E : Type 0) : Type 0 where
  pub mark_processed : String → Async S E Bool
  pub release : String → Async S E (Unit {0})

pub record MemoryStore : Type 0 where
  pub seen : List String
  pub inflight : Assoc String ℕ

abbrev pub create_memory_store : MemoryStore
create_memory_store = record { seen = []; inflight = [] }

abbrev pub is_seen : String → List String → Bool
is_seen event_id seen = any (λ s. s == event_id) seen

-- `Set.add`
unfoldable pub add_seen : String → List String → List String
add_seen event_id seen = if is_seen event_id seen then seen else event_id ∷ seen

-- `Set.delete`
unfoldable pub remove_seen : String → List String → List String
remove_seen event_id seen = filter (λ s. not (s == event_id)) seen

-- The body of the `.then` that decides a claim.
unfoldable pub decide_claim : String → MemoryStore → Bool × MemoryStore
unfolding add_seen
decide_claim event_id s =
    if is_seen event_id s.seen
    then (false, s)
    else (true, record s { seen = add_seen event_id s.seen })

-- `inflight.set(eventId, promise)`, and the `finally` that takes it away.
unfoldable pub open_claim : String → ℕ → MemoryStore → MemoryStore
unfolding set
open_claim event_id caller s = record s { inflight = set event_id caller s.inflight }

unfoldable pub close_claim : String → MemoryStore → MemoryStore
unfolding delete
close_claim event_id s = record s { inflight = delete event_id s.inflight }

-- `release`
unfoldable pub release_claim : String → MemoryStore → MemoryStore
unfolding remove_seen delete
release_claim event_id s = record s {
  seen = remove_seen event_id s.seen;
  inflight = delete event_id s.inflight;
}

-- `markProcessed` that nothing interleaves with: a claim in flight answers false.
unfoldable pub mark_alone : String → MemoryStore → Bool × MemoryStore
unfolding decide_claim open_claim close_claim get
mark_alone event_id s = elim (get event_id s.inflight) [
  | some caller ↦ (false, s)
  | none ↦
      let (won, s') = decide_claim event_id (open_claim event_id 0 s) in
      (won, close_claim event_id s')
]

pub memory_store : {E : Type 0} → IdempotencyStore MemoryStore E
unfolding mark_alone release_claim
memory_store = record {
  mark_processed = λ event_id s. let (won, s') = mark_alone event_id s in (returned won, s');
  release = λ event_id s. (returned tt, release_claim event_id s);
}

-- A repository of the consumer: its insertion says whether the row is new.
pub record IdempotencyRepository (S E : Type 0) : Type 0 where
  pub insert_new : String → Async S E Bool
  pub delete_row : String → Async S E (Unit {0})

pub create_orm_store : {S E : Type 0} → IdempotencyRepository S E → IdempotencyStore S E
create_orm_store repo = record {
  mark_processed = λ event_id. do
    inserted ← repo.insert_new event_id
    pure inserted;
  release = λ event_id. repo.delete_row event_id;
}
