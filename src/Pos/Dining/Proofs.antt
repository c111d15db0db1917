-- ===== src/Pos/Dining/Proofs.antt =====
-- Theorems on the methods of packages/pos/src/dining-service.ts, by what they are about.
pub mod Versions
pub mod Totals
pub mod Tables
pub mod Splits
pub mod Transfers
pub mod Pins
pub mod Stored
pub mod Stations
