-- ===== src/MagicLink.antt =====
-- packages/auth-magic-link: sign-in by a link that is sent by e-mail and works once.
pub mod Store
pub mod SignIn
mod Tests
