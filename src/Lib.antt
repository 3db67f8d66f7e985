-- ===== src/Lib.antt =====
-- The plugins of TheoKit: payments, canvas, copilot, realtime rooms and magic-link sign-in.
--
-- The repository is a set of packages that a host application installs one by one. Each keeps its
-- own state and meets the others through records of functions: a store, a registry, a provider.
--
-- Payments (packages/plugin-payments/src). A gateway delivers an event over HTTP, perhaps twice
-- and perhaps at once. The endpoint verifies it, claims its id in an idempotency store, runs the
-- handlers of a registry, and gives the claim back if one of them throws.
--   Payments/Store      idempotency-store.ts: the contract, `createMemoryStore`, `createOrmStore`
--   Payments/Race       idempotent-dispatch.ts, as processes whose steps end where the code awaits;
--                       a schedule says which process moves, and whether its handlers throw
--   Payments/Registry   webhook.ts: `WebhookRegistry`
--   Payments/Delivery   idempotent-dispatch.ts and dispatch.ts: `runIdempotently`,
--                       `processPaymentWebhook`; Endpoint is `processWebhook` of webhook.ts and
--                       server/webhook-controller.ts
--   Payments/Plugin     plugin.ts: the gateways by name
--   Payments/Currency   currency.ts: `formatAmountForStripe`, over the digits of the amount
--   Payments/Abacate    providers/abacatepay.ts: the adapter of the AbacatePay gateway; Answers is
--                       what it reads of an answer, Charges its operations, Webhook its webhook
--   Payments/Stripe     providers/stripe.ts and checkout.ts, over the SDK as a record of calls
--
-- Canvas (packages/plugin-canvas/src). Agents write versions of artifacts; a store keeps them and
-- a reducer holds what a client shows.
--   Canvas/Artifact     schema.ts and errors.ts: the data and its validation
--   Canvas/Store        store.ts: the in-memory store
--   Canvas/Reducer      ui/canvas-reducer-handlers.ts
--   Canvas/Bus          server/artifact-bus.ts: who is told of a conversation's artifacts
--
-- Copilot (packages/plugin-copilot/src). An agent that sits in a room answers its events under a
-- budget.
--   Copilot/Name        internal/budget-bridge.ts: `budgetNameFor`
--   Copilot/Budget      internal/budget-bridge.ts: `limitsFrom`, `BudgetBridge`
--   Copilot/Dispatch    internal/runtime.ts: `applyDispatcher` and the rotation's state
--   Copilot/Triggers    internal/trigger-evaluator.ts: `evaluate`, `matchesTrigger`, the idle check
--   Copilot/Cost        internal/cost.ts: `splitModelId`, `settleCost`
--   Copilot/Member      agent-room-member.ts: `AgentRoomMember`
--   Copilot/Run         internal/runtime.ts: `runAgent`
--   Copilot/Runtime     internal/runtime.ts: `activate`, `deactivate` (which waits for the
--                       task under way), the frames and their queue
--   Copilot/Prompt      internal/runtime.ts: `frameUntrusted`, `framePrompt`
--
-- Realtime (packages/plugin-realtime/src). Rooms with members, their presence, and those who
-- listen.
--   Realtime/Rooms      memory-provider.ts: `createMemoryRealtimeProvider`, the room objects in a
--                       store by address
--   Realtime/Connections  internal/runtime.ts: `RealtimeRuntime` over that provider;
--                       `handleConnection` in two parts, before and after joining is awaited, and
--                       the theorems are on calls that do not overlap
--   Realtime/Subscription internal/server-integration.ts: the generator of `mountRealtime`, as a step
--                       relation whose steps end where it awaits or yields
--
-- MagicLink (packages/auth-magic-link/src). Sign-in by a link that is sent by e-mail and works
-- once.
--   MagicLink/Store     store.ts: `createMemoryStore`, `createOrmStore`
--   MagicLink/SignIn    index.ts: `validateEmail`, `startSignIn`, `handleCallback`
--
-- Common has what they share: maps in order of insertion (Assoc), functions that return or throw
-- over a state (Async), sorting by a number (Sort), texts as code points (Text).
--
-- An `async` function is a state transformer that returns or throws. Code that is not in the
-- repository is a parameter: the verification of signatures, handlers, the repository of the ORM
-- stores, `Date.parse`, the date check of the schema, SHA-256, `toLowerCase`, the URL of a link,
-- the budgets and the price table of the agent SDK, the agent and the host of a copilot, the
-- schemas of a room, and for the gateways the SDK of Stripe, `fetch`, JSON, URLs and the HMAC.
-- Where a theorem needs something of it, a record names it (`Honours`, `IsUniqueTable`, `IsNamed`).
--
-- Fuel and bounds. The loop that strips markers has one turn more than its text is long, which is
-- enough, since a turn that changes the text shortens it. Seven digits of base 36 write every
-- 32-bit number. All other functions are structural.
--
-- Left out: the SQLite store, React views, the Yjs provider and CRDT bytes, the handlers of the
-- canvas tools and routes, and the packages for OAuth sign-in, voice, forms, e-mail, databases and
-- MDX. Of the copilot's money, amounts are whole numbers, without the rounding of floating point.
pub mod Canvas
pub mod Common
pub mod Copilot
pub mod MagicLink
pub mod Payments
pub mod Realtime
