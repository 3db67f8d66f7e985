-- ===== src/Realtime.antt =====
-- packages/plugin-realtime: rooms with members, their presence and those who listen.
pub mod Rooms
pub mod Connections
pub mod Subscription
mod Tests
mod ConnectionTests
mod SubscriptionTests
