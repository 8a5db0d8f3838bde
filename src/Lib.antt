-- ===== src/Lib.antt =====
-- Delivery tracking: the server of a delivery and fleet platform, whose tenants are companies.
--
-- Deliveries (backend/src/modules/deliveries/deliveries.service.ts, backend/prisma/schema.prisma).
-- The state is `Db`, the tables that the service reads and writes with the list of messages sent; a
-- request is a method of the result and state monad of Prelude.Async, and a thrown exception is a
-- value of `Error`. Deliveries.Status has the statuses and TRANSITION_MATRIX; Deliveries.Model the
-- rows, requests and messages; Deliveries.Location verifyDeliveryLocation; Deliveries.Service the
-- requests on one delivery (findOne, updateStatus, updateDriverStatus, resolveMismatch, remove);
-- Deliveries.Edit create and update; Deliveries.Bulk bulkAction; Deliveries.Tour optimizeTour;
-- Deliveries.Import importDeliveriesFile and Deliveries.Amount parseAmount.
--
-- A request that reads, waits and then writes is in two definitions (check_status and commit_status,
-- check_update and commit_update), so that a theorem can put any table between them. In
-- Deliveries.Reachable the requests are a data type, and sequences of them are run one after the
-- other.
--
-- Identifiers, coordinates and instants are natural numbers: coordinates are only stored and handed
-- to the distance function of `Env`, which stands for the rounded haversineDistance. Geocoding, the
-- routing engine, the queue, the settings and the keys of new rows are parameters. A query of the
-- database does not fail but for the reasons that the code tests: a missing row, a unique index, and
-- the GPS query, which may throw, or, in an import, an amount that does not fit its column of 32 bits.
-- A coordinate of a proof may be undefined or null, as the validator lets both through; null counts as
-- the 0 of `Env`. A turn of the loop of bulkAction changes the report and the tables together, and what
-- it pushed and wrote before an exception stands. Loops are structural on the list of identifiers or
-- of rows; no fuel is used.
--
-- Drivers (backend/src/modules/drivers/drivers.service.ts with
-- backend/src/common/vehicle-assignment/vehicle-assignment-history.service.ts). A driver's row names
-- a vehicle, and so do the open rows of a history. Drivers.History has assign and unassign on the
-- history, Drivers.Service create, update and remove, whose transactions write both tables. The map
-- from drivers to vehicles is the abstract view of either table. The keys that the database gives to
-- new rows are arguments. Deliveries are read, by their record of Deliveries.Model.
--
-- OfflineQueue (frontend/src/services/offlineQueue.ts). The queue of positions that the driver's app
-- keeps while it is offline: OfflineQueue.Store has the object store as a list of entries in the
-- order of their keys, with enqueuePosition, compactOldestPositions and flushQueue. The calls of
-- sendFn are a list, each with its answer and the positions that are enqueued while it is awaited;
-- the loop of flushQueue runs along that list, and a loop whose list ends is still waiting.
--
-- Billing (backend/src/modules/manual-billing/manual-billing.service.ts,
-- backend/src/modules/platform-admin/payment-proofs.service.ts and
-- backend/src/common/guards/subscription.guard.ts). Billing.Service has submitProof, approve, reject
-- and redeem, Billing.Guard canActivate on what it reads of a request: whether the handler skips the
-- check, and the payload of a token that verifies; Billing.Trim has trim, for references. An activation code stands as its hash, the upload
-- by its size and whether its type is allowed. Billing.Requests has the requests as a data type.
--
-- Tracking (backend/src/common/geo/geo.utils.ts, gps-quality.ts and teleportation.utils.ts, and
-- backend/src/modules/tracking/tracking.service.ts and traccar-bridge.service.ts). Tracking.Wake has
-- evaluateWakeFix and the part of handlePosition that acts on it; Tracking.Stops detectStopWindows
-- and collapseStationaryWindows, Tracking.Filter computeFilteredDistance, Tracking.Speed
-- resolveGroundSpeed, Tracking.Teleport evaluateTeleportation; Tracking.Batch and Tracking.Save
-- saveBatch, which uses the last two. There are no floating-point numbers: lengths are in
-- millimetres, instants in milliseconds, speeds in millimetres per second and coordinates in fixed
-- point, all natural numbers, and a test on a quotient or a root is made on products and squares. The
-- distance of two points is a parameter, for haversineDistance. The outer loop of
-- detectStopWindows runs on as much fuel as there are fixes, and each round goes one ahead or more.
--
-- Encryption (backend/src/common/encryption). Encryption.Service has encrypt and decrypt over a cipher
-- that is a parameter, with the laws that AES-GCM is documented to have; Encryption.Middleware what
-- the Prisma middleware does with the arguments of a query and with its rows. A row is a function of
-- the names of its fields, and a nested row is a value without a text.
--
-- Sessions (backend/src/modules/auth/auth.service.ts and
-- backend/src/modules/sessions/sessions.service.ts). Sessions.Service has refresh, generateTokens and
-- createSessionForUser, Sessions.Ends the ways in which sessions end, and Sessions.Requests the
-- requests as a data type. jsonwebtoken and bcrypt are the record Tokens of Sessions.Model; of bcrypt
-- a theorem that needs it takes that a text matches its hash. A request that waits is not interleaved
-- with others here.
--
-- Invitations (backend/src/modules/invitations/invitations.service.ts). Invitations.Service has create,
-- findByToken, resend and revoke, Invitations.Accept accept, which is find_by_token and then the
-- transaction commit_accept, and Invitations.Requests the requests as a data type. The token of an
-- invitation stands as its hash; of toLowerCase only the letters of ASCII are modelled.
--
-- Webhooks (backend/src/modules/webhooks/webhooks.service.ts and
-- backend/src/queue/webhook-retry.processor.ts). Webhooks.Service has the service with dispatch and
-- deliver, Webhooks.Retry process and enqueueFailedDeliveries, and Webhooks.Address isBlockedV4 of
-- backend/src/modules/webhooks/webhook-url-validator.ts. The instant of an attempt, the verdict
-- on its address and the answer of the endpoint stand with the call. A POST is logged with the key of
-- the row that records it. The queue of jobs is a library: any jobs may be worked, in any order.
--
-- Not modelled: the pagination of lists, the texts of messages, the parsing of Excel and PDF files,
-- and the parts of the server that PROJECT.json lists as left out.
pub mod Billing
pub mod Deliveries
pub mod Drivers
pub mod Encryption
pub mod Invitations
pub mod OfflineQueue
pub mod Prelude
pub mod Sessions
pub mod Tracking
pub mod Webhooks
