-- ===== src/Canvas/Bus.antt =====
-- packages/plugin-canvas/src/server/artifact-bus.ts. A handler is a number, since a `Set` tells
-- handlers apart by identity; `called` and `logged` record the calls of handlers and the failures
-- that are logged. Which calls throw is a parameter.
pub mod Sets
pub mod Subscribers
use theokit_plugins.Common.{
  ℕ, ◌+◌, ◌≤◌, String, Bool, true, false, Option, none, some, List, [], ◌∷◌, ◌++◌, any, filter, not,
  ◌&&◌, ◌||◌, map, if◌then◌else◌, ◌==◌, ◌≡◌, ◌≢◌, refl, arith, nat_beq, string_eq, nat_eq, count_by,
  Bool-cases, if-both, inl, inr,
}
use theokit_plugins.Common.Assoc.{Assoc, get, set, delete, keys, get-set, get-delete}
use theokit_plugins.Canvas.Artifact.{Artifact}

pub record Bus : Type 0 where
  pub subscribers : Assoc String (List ℕ)
  pub called : List (ℕ × Artifact)
  pub logged : List ℕ

abbrev pub create_artifact_bus : Bus
create_artifact_bus = record { subscribers = []; called = []; logged = [] }

abbrev pub or_none : Option (List ℕ) → List ℕ
or_none none = []
or_none (some hs) = hs

abbrev pub handlers_of : String → Bus → List ℕ
handlers_of conversation b = or_none (get conversation b.subscribers)

abbrev pub elem : ℕ → List ℕ → Bool
elem k hs = any (λ h. nat_beq h k) hs

-- `Set.prototype.add` and `delete`
abbrev pub add : ℕ → List ℕ → List ℕ
add k hs = if elem k hs then hs else hs ++ k ∷ []

abbrev pub remove : ℕ → List ℕ → List ℕ
remove k hs = filter (λ h. not (nat_beq h k)) hs

abbrev pub subscribe : String → ℕ → Bus → Bus
subscribe conversation k b = record b {
  subscribers = set conversation (add k (handlers_of conversation b)) b.subscribers;
}

abbrev pub put_back : String → List ℕ → Assoc String (List ℕ) → Assoc String (List ℕ)
put_back conversation [] m = delete conversation m
put_back conversation (h ∷ hs) m = set conversation (h ∷ hs) m

abbrev pub unsubscribe_from : String → ℕ → Option (List ℕ) → Bus → Bus
unsubscribe_from conversation k none b = b
unsubscribe_from conversation k (some hs) b = record b {
  subscribers = put_back conversation (remove k hs) b.subscribers;
}

-- The function that `subscribe` gives.
abbrev pub unsubscribe : String → ℕ → Bus → Bus
unsubscribe conversation k b = unsubscribe_from conversation k (get conversation b.subscribers) b

abbrev pub dispose : Bus → Bus
dispose b = record b { subscribers = [] }

abbrev pub list_conversations : Bus → List String
list_conversations b = keys b.subscribers

-- What its users do with a bus.
pub data Op : Type 0 where
  subscribes : (conversation : String) → ℕ → Op
  unsubscribes : (conversation : String) → ℕ → Op
  emits : (conversation : String) → Artifact → Op
  disposes : Op

module _ (throws : ℕ → Artifact → Bool) where
  abbrev pub called_one : ℕ → Artifact → Bus → Bus
  called_one h a b = record b {
    called = b.called ++ (h, a) ∷ [];
    logged = b.logged ++ (if throws h a then h ∷ [] else []);
  }

  -- The loop of `emit`
  unfoldable pub emit_each : Artifact → List ℕ → Bus → Bus
  emit_each a [] b = b
  emit_each a (h ∷ hs) b = emit_each a hs (called_one h a b)

  abbrev pub emit : String → Artifact → Bus → Bus
  emit conversation a b = emit_each a (handlers_of conversation b) b

  abbrev pub operate : Op → Bus → Bus
  operate (subscribes c k) b = subscribe c k b
  operate (unsubscribes c k) b = unsubscribe c k b
  operate (emits c a) b = emit c a b
  operate disposes b = dispose b

  unfoldable pub run_ops : List Op → Bus → Bus
  run_ops [] b = b
  run_ops (o ∷ os) b = run_ops os (operate o b)
