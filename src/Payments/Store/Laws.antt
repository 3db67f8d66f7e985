-- ===== src/Payments/Store/Laws.antt =====
-- What a store promises its dispatcher, and that the two stores keep the promise.
use theokit_plugins.Common.{
  ℕ, String, Bool, true, false, not, Option, none, some, List, [], ◌∷◌, ◌==◌, if◌then◌else◌,
  string_eq, ◌≡◌, refl, ◌∙◌, arith, ◌||◌, ap,
}
use theokit_plugins.Common.Assoc.{get, set, get-set, get-delete}
use theokit_plugins.Common.Async.{returned, proceed-returned, pure}
use theokit_plugins.Payments.Store.{
  IdempotencyStore, MemoryStore, is_seen, add_seen, remove_seen, release_claim, mark_alone,
  memory_store, IdempotencyRepository, create_orm_store,
}

-- The contract: a claim is granted exactly if nobody holds it, and then it is held; a release
-- drops it; no other claim moves. `claimed` is the abstract view of the store's state.
pub record Honours {S E : Type 0} (store : IdempotencyStore S E) (claimed : S → String → Bool)
    : Type 0 where
  pub answers : (k : String) (s : S) → (store.mark_processed k s).0 ≡ returned (not (claimed s k))
  pub claims :
      (k j : String) (s : S)
      → claimed (store.mark_processed k s).1 j ≡ (if k == j then true else claimed s j)
  pub lets_go : (k : String) (s : S) → (store.release k s).0 ≡ returned tt
  pub drops :
      (k j : String) (s : S)
      → claimed (store.release k s).1 j ≡ (if k == j then false else claimed s j)

-- A claim is held if it is recorded, or in flight.
abbrev pub is_open : Option ℕ → Bool
is_open none = false
is_open (some caller) = true

unfoldable pub memory_claimed : MemoryStore → String → Bool
unfolding get
memory_claimed s k = is_seen k s.seen || is_open (get k s.inflight)

pub is_seen-add_seen :
    (k j : String) (seen : List String)
    → is_seen j (add_seen k seen) ≡ (if k == j then true else is_seen j seen)
unfolding add_seen
is_seen-add_seen k j seen = ground (arith, string_eq.beq_iff k j)

pub add_seen-new :
    (k : String) (seen : List String) → is_seen k seen ≡ false → k ∷ seen ≡ add_seen k seen
unfolding add_seen
add_seen-new k seen h = ground arith

pub is_seen-remove_seen :
    (k j : String) (seen : List String)
    → is_seen j (remove_seen k seen) ≡ (if k == j then false else is_seen j seen)
unfolding remove_seen
is_seen-remove_seen k j [] = ground arith
is_seen-remove_seen k j (s ∷ seen) = ground (
  arith,
  is_seen-remove_seen k j seen,
  string_eq.beq_iff k j,
  string_eq.beq_iff s j,
  string_eq.beq_iff s k,
)

mark_alone-answers : (k : String) (s : MemoryStore) → (mark_alone k s).0 ≡ not (memory_claimed s k)
unfolding mark_alone memory_claimed
mark_alone-answers k s = ground arith

mark_alone-claims :
    (k j : String) (s : MemoryStore)
    → memory_claimed (mark_alone k s).1 j ≡ (if k == j then true else memory_claimed s j)
unfolding mark_alone memory_claimed
mark_alone-claims k j s = ground (
  arith,
  string_eq.beq_iff k j,
  is_seen-add_seen k j s.seen,
  get-delete k j (set k 0 s.inflight),
  get-set k j 0 s.inflight,
)

release_claim-drops :
    (k j : String) (s : MemoryStore)
    → memory_claimed (release_claim k s) j ≡ (if k == j then false else memory_claimed s j)
unfolding release_claim memory_claimed
release_claim-drops k j s =
    ground (arith, is_seen-remove_seen k j s.seen, get-delete k j s.inflight)

-- The in-memory store honours the contract.
pub memory_store-Honours : {E : Type 0} → Honours (memory_store {E = E}) memory_claimed
unfolding memory_store
memory_store-Honours = record {
  answers = λ k s. ap returned (mark_alone-answers k s);
  claims = mark_alone-claims;
  lets_go = λ k s. refl;
  drops = release_claim-drops;
}

-- What a table with a unique `event_id` does: an insertion reports whether the row is new, and a
-- deletion removes the row. `row` says whether the table holds one.
pub record IsUniqueTable {S E : Type 0} (repo : IdempotencyRepository S E) (row : S → String → Bool)
    : Type 0 where
  pub reports : (k : String) (s : S) → (repo.insert_new k s).0 ≡ returned (not (row s k))
  pub inserts :
      (k j : String) (s : S) → row (repo.insert_new k s).1 j ≡ (if k == j then true else row s j)
  pub deletes : (k : String) (s : S) → (repo.delete_row k s).0 ≡ returned tt
  pub removes :
      (k j : String) (s : S) → row (repo.delete_row k s).1 j ≡ (if k == j then false else row s j)

-- Over such a table the repository's store honours the contract too.
pub create_orm_store-Honours :
    {S E : Type 0} (repo : IdempotencyRepository S E) (row : S → String → Bool)
    → IsUniqueTable repo row
    → Honours (create_orm_store repo) row
unfolding create_orm_store
create_orm_store-Honours repo row t = record {
  answers = λ k s. ap (λ p. p.0) (proceed-returned (repo.insert_new k s) pure (t.reports k s));
  claims = λ k j s.
      ap (λ p. row p.1 j) (proceed-returned (repo.insert_new k s) pure (t.reports k s))
      ∙ t.inserts k j s;
  lets_go = t.deletes;
  drops = t.removes;
}
