-- ===== src/Payments/Race.antt =====
-- packages/plugin-payments/src/idempotent-dispatch.ts, `runIdempotently`, over the in-memory store,
-- when several deliveries are in the air. Delivery `i` carries the event `ids i`; a schedule says
-- which delivery runs up to its next `await`, and whether its handlers return. The promise of a
-- claim is named by the delivery that made it, and a delivery that finds one waits for it.
pub mod Exclusion
mod Tests
use theokit_plugins.Common.{
  ℕ, String, Bool, true, false, Option, none, some, List, [], ◌∷◌, ◌==◌, if◌then◌else◌, nat_eq,
  string_eq,
}
use theokit_plugins.Common.Assoc.{get}
use theokit_plugins.Payments.Store.{
  MemoryStore, create_memory_store, decide_claim, open_claim, close_claim, release_claim,
}

pub data Phase : Type 0 where
  fresh deciding dispatching releasing succeeded duplicate failed : Phase
  waiting : ℕ → Phase
  decided : Bool → Phase

pub record System : Type 0 where
  pub store : MemoryStore
  pub phase : ℕ → Phase

abbrev pub update : (ℕ → Phase) → ℕ → Phase → ℕ → Phase
update phase i p j = if i == j then p else phase j

abbrev pub settled : Phase → Bool
settled fresh = false
settled deciding = false
settled p = true

abbrev at : System → ℕ → Phase → MemoryStore → System
at s i p store = record { store = store; phase = update s.phase i p }

-- The run of delivery `i` from phase `p` to its next `await`.
unfoldable pub resume : (ℕ → String) → ℕ → Bool → System → Phase → System
unfolding decide_claim open_claim close_claim release_claim get
resume ids i ok s fresh = elim (get (ids i) s.store.inflight) [
  | some caller ↦ at s i (waiting caller) s.store
  | none ↦ at s i deciding (open_claim (ids i) i s.store)
]
resume ids i ok s deciding =
    let (won, store) = decide_claim (ids i) s.store in at s i (decided won) store
resume ids i ok s (waiting caller) =
    if settled (s.phase caller) then at s i duplicate s.store else s
resume ids i ok s (decided won) =
    at s i (if won then dispatching else duplicate) (close_claim (ids i) s.store)
resume ids i ok s dispatching = at s i (if ok then succeeded else releasing) s.store
resume ids i ok s releasing = at s i failed (release_claim (ids i) s.store)
resume ids i ok s succeeded = s
resume ids i ok s duplicate = s
resume ids i ok s failed = s

unfoldable pub run_schedule : (ℕ → String) → List (ℕ × Bool) → System → System
unfolding resume
run_schedule ids [] s = s
run_schedule ids ((i, ok) ∷ rest) s = run_schedule ids rest (resume ids i ok s (s.phase i))

abbrev pub at_rest : System
at_rest = record { store = create_memory_store; phase = λ i. fresh }
