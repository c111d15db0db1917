-- ===== src/Lib.antt =====
-- TRIDENTPOS: the point of sale's money, tables, accounts, cash shifts, payments and kitchen display,
-- the host's folios and lockout, the recipes of the inventory, and loyalty.
--
-- The program is a point of sale for restaurants. A station runs the domain of packages/pos over an
-- SQLite database through the adapters of packages/pos-edge-runtime; amounts are bigints at scale 4 by
-- packages/core/src/money.ts. A route of the runtime parses a request, runs one synchronous operation
-- of a service in one transaction together with its outbox entry, and rolls back if it throws.
--
-- What models what:
--   * Money: packages/core/src/money.ts. `round_div` is roundDiv, Money.Decimal has the decimal strings
--     (scaledBigIntToDecimalString, decimalStringToScaledBigInt) and Money.Amount the class Money.
--   * Pos.Types, Pos.Errors: packages/pos/src/types.ts and errors.ts. An operation is an `Action`: from
--     the tables to a value or an error, with the tables as they are when it returns or throws.
--   * Pos.Repository: packages/pos-edge-runtime/src/dining-sqlite-repository.ts over the tables of
--     schema.ts, each a list of rows under their primary key (Pos.Table). A save with version 0
--     inserts; any other compares the version and swaps.
--   * Pos.Totals: calculateItemFinancials and recalculateCuentaTotals of packages/pos/src/
--     dining-service.ts.
--   * Pos.Policies, Pos.Split: packages/pos/src/policies.ts, the cancellation rule, the transfer rule
--     and the split strategy.
--   * Pos.Dining: DiningDomainService of packages/pos/src/dining-service.ts. Pos.Dining.Mesas has
--     createMesa, openCuenta, liberarMesa and mergeTablesHook; Lines has addItemToCuenta and
--     cancelItem; Closing has closeCuenta, cancelCuenta and splitCuenta; Transfer has transferCuenta;
--     Commands has reassignWaiter, changeGuestCount and requestCheck. Pos.Dining.Session puts the
--     operations on a stored account into one type of commands, for what holds of all of them, and
--     Pos.Dining.Proofs has the theorems.
--   * Pos.Shift: the cash shifts. Pos.Shift.Breakdown is computeBreakdown and Pos.Shift.Service the
--     methods of CashShiftDomainService of packages/pos/src/cash-shift-service.ts, Pos.Shift.Strategy
--     is cash-shift-strategy.ts, and Pos.Shift.Repository is packages/pos-edge-runtime/src/
--     cash-shift-sqlite-repository.ts. Pos.Shift.Proofs puts the methods on a stored shift into one
--     type of commands.
--   * Pos.Payments: packages/pos/src/payment-types.ts and the settlement of packages/pos-edge-runtime/
--     src/payment-sqlite-repository.ts, over the tables of accounts and of shifts; Pos.Payments.Service
--     is PaymentDomainService of packages/pos/src/payment-service.ts.
--   * Kds: the kitchen display of packages/pos/src/kds-types.ts. Kds.Service is KdsDomainService of
--     kds-service.ts, Kds.Repository is packages/pos-edge-runtime/src/kds-sqlite-repository.ts, Kds.Printing
--     the print queue of printer-queue-runner.ts beside it, and Kds.Wire is packages/pos/src/
--     kds-wire-mapper.ts. The two domains share the tables of Pos.Table only.
--   * Edge: what the host keeps by itself. Edge.Epoch is packages/core/src/folio-contracts.ts, Edge.Folio the
--     leases of packages/edge/src/db/folio-persistence.ts over it, and Edge.Lockout is packages/edge/
--     src/iam/lockout-manager.ts with its table of packages/edge/src/db/iam-persistence.ts.
--   * Inventory: packages/inventory/src/types.ts, errors.ts and numerics.ts; Inventory.Explosion is
--     explodeIngredients and Inventory.Cost calculateRecipeCost of recipe-engine.ts,
--     and Inventory.Kardex is kardex-domain.ts.
--   * Crm: loyalty accounts of packages/crm/src/types.ts. Crm.Numerics is numerics.ts, Crm.Loyalty has
--     the operations of loyalty-engine.ts and Crm.Promotions its promotions and the expiry of points.
--
-- Representation: identifiers, names and instants are natural numbers, since the code only compares
-- them; 0 is the empty string. Text that the code looks into (reasons, kitchen states, pins, decimal
-- strings) is a list of UTF-16 code units. A bigint is an unbounded integer; that SQLite stores 64 bits
-- is left out. The clock is an argument of each operation. Loops over lists are structural recursions
-- without fuel. The recursion of a recipe into its subrecipes is bounded by a depth, which is
-- never used up where it is more than the number of recipes that the resolver knows.
--
-- The validator of pins is a parameter, a function that answers at once or with a promise; its own
-- state is not seen. The cash shifts and payments await it, and there it is a function to the answer.
-- Which identifiers are blank is a parameter there too. The client of a printer and the resolvers of
-- subrecipes and prices are parameters as well, functions to what they answer.
--
-- `BigInt` of a text refuses the prefixes of other bases in Crm.Numerics, which it would take.
--
-- Not modelled: the cloud server and its database, synchronisation and the outbox, billing, delivery,
-- finance and procurement, device enrollment, and the user interfaces; the texts of error messages, the salon's read model, the routes and their outbox
-- entries, the bytes that are printed, references between tables, and faults that tests inject. The
-- guards against a repository without synchronous methods are left out, since the repository has
-- them. An operation that reads the clock twice is given one reading.
pub mod Prelude
pub mod Money
pub mod Pos
pub mod Edge
pub mod Inventory
pub mod Kds
pub mod Crm
