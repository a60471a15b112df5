-- ===== src/Lib.antt =====
-- Darkview: a telescope that customers book and direct through the web. The API (apps/api) sells
-- sessions and judges commands; the realtime service (apps/realtime) is the link to the agent at
-- the telescope and runs the timers; both share the database package (packages/db), which holds
-- the ledgers. This library models the parts of the two services and of that package that decide.
--
-- A call inside a database transaction is a function from the tables to a result and the tables it
-- leaves. Where it may throw, the result says so and comes without tables, since the transaction is
-- rolled back. What other transactions commit between two statements is a parameter, a function on
-- the tables. Ids and texts that are only compared are numbers, instants are milliseconds, and
-- money, minutes and points are integers without the bound of their 32-bit columns, which the
-- database refuses to exceed.
--
-- Common: tests on numbers, signed integers, lists and tables.
-- Credits: packages/db/credits.ts, the ledger of subscription minutes. Accounts, Ledger, Solvency
--   and Spending are about `postCreditEntry`; Callers about what spends, releases and expires.
-- Loyalty: packages/db/loyalty.ts, the ledger of points and the tiers. Posting has
--   `postLoyaltyEntry`, Earning what calls it; Tiers, Books, Drift, Callers and Refunds the proofs.
-- Refunds: packages/db/refunds.ts and packages/db/card-prizes.ts. Paying has the walk back along a
--   chain of reschedules, which is bounded by the source's own twelve steps, and Refunding the four
--   refunds, which use the two ledgers; Chain, Frames and Once have the proofs.
-- Renewals: `decide` of apps/realtime/src/subscriptions/renewals.ts, which uses the credit ledger.
-- Mission: the mission states and their table (apps/realtime/src/link/store.ts), the guarded update
--   `applyMissionEvent` (apps/realtime/src/link/prisma-store.ts), `sessionEndReasonOf`
--   (packages/db/booked-session.ts). Endings has what sequences of events can do.
-- InSlot: the rules of a RETARGET and a CAPTURE (apps/api/src/features/missions/in-slot.ts) and the
--   countdowns that show them (apps/realtime/src/mission/booked-session.ts).
-- Safety: apps/api/src/lib/safety/envelope.ts over any arithmetic for the doubles (Safety.Numbers),
--   with the Sun's position as a parameter, since the ephemeris package computes it.
-- Slots: apps/api/src/lib/slots/generate.ts, and the waitlist's copy of the turnaround rule
--   (packages/db/waitlist.ts). The loop over a night has fuel for one round more than the number of
--   dawn; the start grows by a quarter hour each round, so dawn comes first.
-- Hours: the owner's hours (apps/api/src/lib/slots/availability.ts and the local clock of
--   darkness.ts), over a calendar that stands for the platform's `Date` and `Intl`. Merge and Open
--   say what they open of a night; Listing has `listSlotsForDate`
--   (apps/api/src/features/booking/slots.ts) and `findGeneratedSlot` (reserve.ts beside it), which
--   tile the open intervals with Slots, and Listing.Bookable and Listing.Found what they give.
-- Waitlist: the two queries of packages/db/waitlist.ts around a slot, over the rows of
--   Hours.Listing; Waitlist.Around relates them to the clashes of the list.
--
-- Link: the agent link (apps/realtime/src/link/agent-link.ts, registry.ts and protocol.ts). Messages
--   has what crosses the wire, Storage the interface of the store (store.ts) with the laws that the
--   link relies on, State, Handlers and Conversation the class `AgentLink`: a handler runs to its end
--   before the next event and reads the clock once. Ownership and Reach are about all worlds that a
--   link can reach, with other processes changing the store in between; Replay, Silence, Frames and
--   Uploads (with Keys) about single messages; Registry is `AgentLinkRegistry`.
-- Store: apps/realtime/src/link/prisma-store.ts on its tables. Hello, Verdicts, Captures and Sweeps
--   have the operations; Past and Kept what they never undo; Service fills the interface of Link;
--   Commands and Ends say what verdicts, restarts and the end of a session do. An operation is one
--   step, also where the source uses more than one statement outside a transaction.
-- Entitlements: the loss of an ended slot (apps/realtime/src/refunds/entitlements.ts). Measure counts
--   milliseconds, Union, Edges and Losses relate the loop over edges to the count, Timeline and
--   Endings say what is in force at a moment, and Reference has the results.
--
-- Not modelled: the agent, in another language; authentication, storage, streams, email texts and
-- HTTP routes, which are inputs and outputs; the ephemeris, a third-party package; and for now the
-- rest of the reservation, the settlement of payments and the choice of an entitlement.
pub mod Common
pub mod Credits
pub mod Entitlements
pub mod Hours
pub mod InSlot
pub mod Link
pub mod Loyalty
pub mod Mission
pub mod Refunds
pub mod Renewals
pub mod Safety
pub mod Slots
pub mod Store
pub mod Waitlist
