-- ===== src/Edge.antt =====
-- The host of a branch: packages/edge, over its SQLite database, and the folio contracts of
-- packages/core/src/folio-contracts.ts.
pub mod Epoch
pub mod Folio
pub mod Lockout
