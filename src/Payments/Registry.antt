-- ===== src/Payments/Registry.antt =====
-- packages/plugin-payments/src/webhook.ts (`WebhookRegistry`) and dispatch.ts
-- (`PaymentEventRegistry`): handlers by event type. A handler is an `async` function over the
-- application's state `H` that may throw an `E`.
pub mod Order
use theokit_plugins.Common.{
  ℕ, zero, suc, String, Bool, true, false, Option, none, some, List, [], ◌∷◌, ◌++◌, length,
  get_elem?, string_eq,
}
use theokit_plugins.Common.Assoc.{Assoc, get, set}
use theokit_plugins.Common.Async.{Attempt, Async, returned, threw}

pub record Handler (Event H E : Type 0) : Type 0 where
  pub event_type : String
  pub handle : Event → Async H E (Unit {0})

-- `AggregateError`: what the handlers threw, and the event type that its message names.
pub record Aggregate (E : Type 0) : Type 0 where
  pub errors : List E
  pub event_type : String

pub record Registry (Event H E : Type 0) : Type 0 where
  pub handlers : Assoc String (List (Handler Event H E))

abbrev pub empty_registry : {Event H E : Type 0} → Registry Event H E
empty_registry = record { handlers = [] }

-- `bucket ?? []`
abbrev pub or_empty : {A : Type 0} → Option (List A) → List A
or_empty none = []
or_empty (some xs) = xs

-- What a handler's run adds to `errors`.
abbrev pub push_error : {E : Type 0} → Attempt E (Unit {0}) → List E → List E
push_error (returned _) errors = errors
push_error (threw e) errors = errors ++ e ∷ []

-- The end of `dispatch`: errors are thrown together.
abbrev pub throw_if_any :
    {H E : Type 0} → String → List E × H → Attempt (Aggregate E) (Unit {0}) × H
throw_if_any event_type ([], h) = (returned tt, h)
throw_if_any event_type (e ∷ es, h) =
    (threw (record { errors = e ∷ es; event_type = event_type }), h)

module _ {Event H E : Type 0} where
  unfoldable pub bucket_of : String → Registry Event H E → List (Handler Event H E)
  unfolding get
  bucket_of event_type r = or_empty (get event_type r.handlers)

  -- `register`
  unfoldable pub register : Handler Event H E → Registry Event H E → Registry Event H E
  unfolding set bucket_of
  register h r = record r {
    handlers = set h.event_type (bucket_of h.event_type r ++ h ∷ []) r.handlers;
  }

  -- One round of the loop: a hole in the bucket is skipped.
  abbrev pub round : Option (Handler Event H E) → Event → List E → H → List E × H
  round none event errors h = (errors, h)
  round (some handler) event errors h =
      let (r, h') = handler.handle event h in (push_error r errors, h')

  -- The loop `for (let i = bucket.length - 1; i >= 0; i--)`; `zero` is past the last round, and
  -- `suc i` the round at `i`.
  unfoldable pub dispatch_loop : List (Handler Event H E) → Event → ℕ → List E → H → List E × H
  dispatch_loop bucket event zero errors h = (errors, h)
  dispatch_loop bucket event (suc i) errors h =
      let (errors', h') = round (get_elem? bucket i) event errors h in
      dispatch_loop bucket event i errors' h'

  -- `dispatch`
  unfoldable pub dispatch : String → Registry Event H E → Event → Async H (Aggregate E) (Unit {0})
  unfolding bucket_of dispatch_loop
  dispatch event_type r event h =
      let bucket = bucket_of event_type r in
      throw_if_any event_type (dispatch_loop bucket event (length bucket) [] h)

  -- `hasHandlersFor`
  unfoldable pub has_handlers_for : String → Registry Event H E → Bool
  unfolding bucket_of
  has_handlers_for event_type r = elim (bucket_of event_type r) [ [] ↦ false | h ∷ hs ↦ true ]
