-- ===== src/Pos.antt =====
-- packages/pos/src, the domain of the point of sale, over the SQLite adapters of
-- packages/pos-edge-runtime/src.
pub mod Types
pub mod Errors
pub mod Table
pub mod Repository
pub mod Totals
pub mod Policies
pub mod Split
pub mod Dining
pub mod Shift
pub mod Payments
pub mod Samples
mod Tests
