-- ===== src/Lib.antt =====
-- The back end of a coffee shop: an HTTP service over a relational database. Cashiers open and close
-- shifts on a fund, move cash and hand it over; promotions discount invoices; ingredients are
-- reserved for orders and booked in and out of stock; guests sit at tables whose order lines are
-- prepared and served; requests that change state carry a key that makes them run once.
--
-- The parts and their files:
-- - Cash: src/app/cashier-shifts. Types has the tables of prisma/schema.prisma that it uses; Access
--   the shared queries and writes (common/prisma/employee.util.ts, cashier-shift-ledger.service.ts);
--   Handovers is cash-handovers.service.ts, Shifts is cashier-shifts.service.ts with
--   calculateReconciliation in Shifts/Reconciliation, Funds is funds.service.ts. Ledger is the
--   specification that all of them meet: `basis` is what a fund holds beyond its entries.
-- - Promotions: src/app/promotions. Policy is policies/promotion-policy.service.ts, Calculator is
--   services/promotion-calculator.service.ts, Service is promotions.service.ts with its repository;
--   Lawful and Runs are about sequences of requests.
-- - Durable: Idempotency is src/app/durable/idempotency.service.ts, Transaction the retry loop of
--   src/common/prisma/transaction.util.ts. Shift operations and stock movements run inside both.
-- - Inventory: src/app/inventory. Stock has the tables, services/inventory-costing.ts and a part of
--   the policy; Movement is services/inventory-movement.service.ts; Reservations and Consumption are
--   services/inventory-consumption.service.ts, which the order services call.
-- - Orders: src/app/orders. Types has the tables and Policy the checks; Seating (sessions, transfer,
--   merge, completion), Closing (cancelSession, clearTable), Split, Adding and Serving (statuses,
--   cancelItem, remakeItem) are orders.service.ts, and Pickup is the pickup codes of
--   takeaway.service.ts. Selection is src/app/menu/menu-option-selection.ts, Kitchen is
--   src/app/kitchen/kitchen-routing.service.ts. A line that starts to cook consumes its ingredients
--   in Inventory. History runs any sequence of these operations; Seated and Lines have what each
--   operation does to the tables and to the lines, and Floor is the specification of the tables: a
--   plan from a table to its session, and the events that change it.
-- - OnlineOrders: Pickup is src/app/online-orders/pickup-schedule.ts, on days given by their number.
-- - Prelude: tables with a primary key, results of requests, signed amounts.
--
-- Conventions: an operation is the body of its serializable transaction. It takes the state of the
-- tables and returns a new one, or the kind of the exception and no state, as a transaction that
-- throws rolls back. Times, texts and ids are numbers; `next_id` stands for the fresh uuid of a row.
-- Money is in hundredths and quantities are in ten-thousandths, the scales of their columns, so
-- that decimals are exact; the twenty significant digits that the decimal library keeps are not
-- modelled. `updateMany` with a count of one is `claim`, or `update_many`
-- after a test of the count. Unique indexes that the services rely on
-- are tests that fail as the service reports them. The CHECK constraints on promotions, on the cash
-- of a shift, and on funds and entries that the commands of a shift write are tests of the rows that
-- are written, which fail with `internal`. Case conversions, the comparison of names without
-- case, the hash of a request, the JSON of a result and the HMAC of a pickup code are parameters.
--
-- Loops are structural: over rows, over commands, in the retry loop over the attempts that are
-- left, which start at `maxRetries`, and over the slots of a day, of which there are at most as many
-- as minutes before closing; the theorem that every accepted time is offered shows that this many
-- rounds are enough.
--
-- Not modelled: controllers, validation of the shapes of requests, searches, pagination, the texts
-- of messages, notes and descriptions, the other CHECK constraints of the database, outbox events, the print jobs that orders queue, check-in of
-- reservations, and the parts that have no file here (the rest of online orders, of the kitchen and
-- of the menu, payments, invoices, reservations of tables, printing, reports, accounts and roles).
-- Concurrency is that of serializable transactions: one after the other, in any order.
pub mod Prelude
pub mod Cash
pub mod Promotions
pub mod Durable
pub mod Inventory
pub mod OnlineOrders
pub mod Orders
