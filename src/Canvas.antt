-- ===== src/Canvas.antt =====
-- packages/plugin-canvas/src.
pub mod Artifact
pub mod Store
pub mod Reducer
pub mod Bus
mod Tests
mod BusTests
