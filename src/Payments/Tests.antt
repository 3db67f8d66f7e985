-- ===== src/Payments/Tests.antt =====
-- A small application: its state is the list of what its handlers wrote, and one of them throws.
use theokit_plugins.Common.{
  ℕ, String, some, List, [], ◌∷◌, ◌≡◌, refl, arith, reverse, if◌then◌else◌, ◌==◌, string_eq,
}
use theokit_plugins.Common.Async.{Attempt, Async, returned, threw}
use theokit_plugins.Payments.Store.{
  IdempotencyStore, MemoryStore, create_memory_store, memory_store, IdempotencyRepository,
}
use theokit_plugins.Payments.Store.Laws.{
  Honours, memory_claimed, memory_store-Honours, IsUniqueTable,
}
use theokit_plugins.Payments.Registry.{Handler, Registry, bucket_of, throw_if_any, dispatch}
use theokit_plugins.Payments.Registry.Order.{run_all, dispatch-run_all}
use theokit_plugins.Payments.Delivery.{
  World, run_idempotently, PaymentEvent, VerifyError, event_key, process_payment_webhook,
}
use theokit_plugins.Payments.Delivery.Cycle.{expected, Meets, run_idempotently-Meets}
use theokit_plugins.Payments.Delivery.Endpoint.{
  StripeEvent, Delivered, handle, verify_and_parse_webhook,
}
use theokit_plugins.Payments.Delivery.Endpoint.Status.{answer, handle-answer}
use theokit_plugins.Payments.Plugin.{process_payment_webhook-isolated}

abbrev App : Type 0
App = List ℕ

abbrev write : {Event : Type 0} → ℕ → String → Handler Event App String
write n type = record { event_type = type; handle = λ event log. (returned tt, n ∷ log) }

abbrev fail : {Event : Type 0} → ℕ → String → Handler Event App String
fail n type = record { event_type = type; handle = λ event log. (threw "boom", n ∷ log) }

abbrev handlers : {Event : Type 0} → Registry Event App String
handlers = record {
  handlers =
      ("paid", write 1 "paid" ∷ write 2 "paid" ∷ [])
      ∷ ("bad", write 3 "bad" ∷ fail 4 "bad" ∷ [])
      ∷ [];
}

-- The newest handler runs first.
dispatch_paid : dispatch {Event = ℕ} "paid" handlers 0 [] ≡ (returned tt, 1 ∷ 2 ∷ [])
unfolding dispatch
dispatch_paid = refl

-- A handler that throws does not stop the others.
dispatch_bad :
    dispatch {Event = ℕ} "bad" handlers 0 []
    ≡ (threw (record { errors = "boom" ∷ []; event_type = "bad" }), 3 ∷ 4 ∷ [])
unfolding dispatch
dispatch_bad = refl

dispatch-run_all_example :
    dispatch {Event = ℕ} "bad" handlers 0 []
    ≡ throw_if_any "bad" (run_all {Event = ℕ} (reverse (bucket_of "bad" handlers)) 0 [])
dispatch-run_all_example = dispatch-run_all "bad" handlers 0 []

abbrev idle : World MemoryStore App
idle = record { store = create_memory_store; app = [] }

abbrev store : IdempotencyStore MemoryStore String
store = memory_store

abbrev good : Async App String (Unit {0})
good log = (returned tt, 7 ∷ log)

abbrev bad : Async App String (Unit {0})
bad log = (threw "boom", 8 ∷ log)

-- A repository whose table is the list of its rows.
abbrev table : IdempotencyRepository MemoryStore String
table = record { insert_new = store.mark_processed; delete_row = store.release }

table-IsUniqueTable : IsUniqueTable table memory_claimed
table-IsUniqueTable =
    let h = memory_store-Honours {E = String} in
    record { reports = h.answers; inserts = h.claims; deletes = h.lets_go; removes = h.drops }

run_idempotently-Meets_example : Meets memory_claimed (run_idempotently store "evt_1" bad idle) (
    expected "evt_1"
      (memory_claimed idle.store "evt_1")
      (bad idle.app)
      idle.app
      (memory_claimed idle.store))
run_idempotently-Meets_example = run_idempotently-Meets store memory_store-Honours "evt_1" bad idle

abbrev paid : PaymentEvent ℕ
paid = record { type = "paid"; id = "evt_1"; provider_event_type = "x"; provider = "p"; raw = 0 }

abbrev accept : ℕ → Attempt (VerifyError String) (PaymentEvent ℕ)
accept request = returned paid

process_payment_webhook-isolated_example :
    memory_claimed
      (process_payment_webhook store handlers accept (some "stripe") 0 idle).1.store
      (event_key "pix" "evt_1")
    ≡ memory_claimed idle.store (event_key "pix" "evt_1")
process_payment_webhook-isolated_example =
    process_payment_webhook-isolated store memory_store-Honours handlers accept "stripe" "pix"
      "evt_1" 0 paid idle refl (omega arith) (omega arith) (λ e. cc)

-- An endpoint whose verification accepts the body "good".
abbrev construct : String → String → String → Attempt String (StripeEvent ℕ)
construct body signature secret =
    if body == "good"
    then returned (record { id = "evt_1"; type = "bad"; object = 0 })
    else threw "no match"

abbrev signed : Delivered
signed = record { raw_body = "good"; signature_header = some "t=1" }

handle-answer_example :
    ((handle construct store handlers signed "whsec" idle).0
      ≡ returned
          (answer
            (verify_and_parse_webhook construct signed "whsec")
            (memory_claimed idle.store)
            (λ event. dispatch event.type handlers event idle.app)
            idle.app).0)
    × ((handle construct store handlers signed "whsec" idle).1.app
        ≡ (answer
            (verify_and_parse_webhook construct signed "whsec")
            (memory_claimed idle.store)
            (λ event. dispatch event.type handlers event idle.app)
            idle.app).1)
handle-answer_example =
    handle-answer construct store memory_store-Honours handlers signed "whsec" idle

memory_store-Honours_example : Honours (memory_store {E = String}) memory_claimed
memory_store-Honours_example = memory_store-Honours {E = String}
