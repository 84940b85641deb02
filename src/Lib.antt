-- ===== src/Lib.antt =====
-- The source-to-pay core of the procurement API (apps/api): procurement requests with their approval,
-- requests for quotation, bids, evaluations and awards, purchase orders, goods receipts and invoices
-- with three-way matching, as the services of apps/api/src and their Prisma repositories implement
-- them.
--
-- The services share one database; the model has three groups of its tables. A procurement request is
-- drafted, submitted, and approved by a workflow over four levels (tables `Approvals`). For an approved
-- request an RFQ invites vendors, whose bids are evaluated until one gets the award (tables `Sourcing`,
-- which read the requests). The tables `Database` start from awards: a purchase order is made from an
-- award, issued, acknowledged or cancelled. A goods receipt records what arrived for an order, and
-- writes the delivery status of the order. An invoice names an order and a receipt; it is submitted, matched against both, approved and
-- paid.
--
-- Files:
--   Schema: enumerations and rows of apps/api/prisma/schema.prisma; Schema/Emails compares addresses.
--   Database: the tables, the signed-in caller, and what the surroundings supply (fresh keys, clock).
--   Results: a service method is an action on the database that answers a value or an exception. An
--   exception leaves in place what was written before it, as without a transaction.
--   Store: tables as association lists with their lemmas.
--   Decimals: the JavaScript numbers of the services, with Rounding, Accuracy and Injective.
--   Orders: Repository and Service model apps/api/src/purchase-orders; Lifecycle, Creation, Effects and
--   History hold what is proved about them.
--   Receipts: Repository and Service model apps/api/src/goods-receipts; Progress, Cumulative, Lines,
--   Checks, ReceiveWrites, Quantities, StatusWrites and Deliveries hold the proofs, OrderHistory those on runs of the
--   requests to both services.
--   Invoices: Repository, Amounts, Matching and Service model apps/api/src/invoices; Updates, Matches,
--   Writes, Lifecycle, Effects, History, Agreement, Totals and Creation hold the proofs.
--   Approvals: Schema, Repository and Service model apps/api/src/approval-workflows; Lifecycle and
--   History are about single decisions and runs of them; Process is the step relation of requests and
--   workflows, Ladder and Soundness its invariants, Completion the way to an approval.
--   Procurement: Repository and Service model apps/api/src/procurement; Submission, Writes, Decisions
--   and Refinement trace its requests and the decisions to steps of Approvals/Process.
--   Sourcing: Schema and Lookup hold the rows and queries that RFQs, bids and evaluations share; Process
--   is their step relation under a clock, Soundness, RfqSteps, BidSteps and Invariant its invariant, Runs
--   and Guarantees runs of requests.
--   Rfqs, Bids, Evaluations: Repository and Service model apps/api/src/rfqs, apps/api/src/bids and
--   apps/api/src/bid-evaluations, with Evaluations/Rankings for `getRankings`; Writes and Items trace the
--   requests to steps of Sourcing/Process; Order and Averages are about the rankings.
--   Contracts: Schema, Dto, Repository and Service model apps/api/src/contracts; Versions, Validity, Changes
--   and History hold the proofs. Its tables stand beside `Database`, whose awards and orders it reads.
--   Relations: any number of steps of a relation.
--   Prelude: shared names; Samples and the Tests modules: rows, runs and instances.
--
-- A service method keeps its name in lower snake case. A method of a repository carries the row in its
-- name where the service has a method of the same name, as `issue_order` for `issue`. The caller stands
-- for the arguments `organisationId`, `userId`, `userEmail` and `userRole`. Two updates of different
-- rows in one request are two writes in the order of the source.
--
-- A key that the database client makes for a new order, receipt or invoice is refused if a row has it.
-- Runs of requests are requests to the services that the theorem names: deleting a vendor or an
-- organisation, which cascades to orders and invoices, belongs to services that are not modelled.
-- Addresses are compared in lower case for the letters that Schema/Emails lists.
--
-- Bounds: identifiers, dates and quantities are natural numbers. An amount in a `Decimal(14, 2)` column
-- is a number of cents, and an amount of a request is a double that is not negative. The search for the
-- exponent of a double runs on fuel of 1200, above the 1126 doublings that the smallest double needs.
-- Exactness is stated below 2 ^ 40 cents and for up to 2000 lines.
--
-- A sort is insertion into a sorted list, which is stable as `Array.prototype.sort` is. A score with two
-- decimal places is a number of hundredths.
--
-- Not modelled: read endpoints other than the rankings, pagination, mapping of rows to responses, audit and event records, the
-- texts of discrepancies, concurrent requests, and the other modules of the API, the web and mobile
-- applications and the shared packages.
pub mod Prelude
pub mod Decimals
pub mod Results
pub mod Relations
pub mod Store
pub mod Schema
pub mod Database
pub mod Samples
pub mod Orders
pub mod Receipts
pub mod Invoices
pub mod Approvals
pub mod Procurement
pub mod Sourcing
pub mod Rfqs
pub mod Bids
pub mod Evaluations
pub mod Contracts
