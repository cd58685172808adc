-- ===== src/Lib.antt =====
-- WorkspaceBridge backend: a model of the NestJS services and of what makes them correct.
--
-- The program. Freelancers own workspaces and invite clients into them. The HTTP controllers and the
-- socket gateways call services (src/*/*.service.ts), and the services keep all their state in one
-- PostgreSQL database (prisma/schema.prisma) that they reach through the Prisma client. The auth
-- services (src/auth) log users in by password, second factor, Google or e-mailed token and issue JWTs; a
-- session row backs each refresh token. The workspace, task and invite services check who owns or
-- belongs to a workspace before they touch its rows.
--
-- The files.
--   Base: shared helpers. Tests (Boolean tests on numbers, cases), Lists (length, take, drop over the
--     native numbers), Table (the queries of the Prisma client on a table: findFirst, findMany, count,
--     updateMany, deleteMany), Queries, Keys, KeyedWrites
--     and Apart (their laws, without and with a unique key), Reversal (the ends of a reversed list),
--     Handler (a request handler as a function from a state to a result and a state).
--   Store: Rows (the rows of prisma/schema.prisma), State (the database, the audit log, the e-mails
--     sent, the reasons for a refusal), Outside (the libraries that are parameters).
--   Auth.Sessions: src/auth/auth.service.ts (enforceSessionLimit, the session issue, refresh, logout),
--     src/auth/auth.constants.ts, and the sessions of src/user/user.service.ts. Limit is about the cap,
--     Rotation about refresh.
--   Auth.Alerts: src/auth/login-alert.service.ts. Devices says when an e-mail goes out.
--   Auth.Login: registerFailedLogin and loginUser of src/auth/auth.service.ts. Lockout and Success are
--     about wrong and right passwords.
--   Auth.TwoFactor: src/auth/two-factor-auth.service.ts. Guesses is about one request, Burn about a run
--     of them, Eviction about the second copy of the session cap.
--   Auth.Passwords: src/libs/common/services/password-history.service.ts, password-breach.service.ts,
--     changePassword and setPassword of src/user/user.service.ts. History: the queue of old hashes.
--   Auth.EmailTokens: registration, verification, password reset and change of address in
--     src/auth/auth.service.ts. Registration and Reset hold the proofs.
--   Auth.Google: the exchange codes (Codes) and the Google sign-in (Identity) of src/auth/auth.service.ts.
--   Auth.Passkeys: src/auth/passkey.service.ts, with SigningIn and Registering.
--   Auth.Cleanup: src/auth/cleanup.service.ts. Expired is about the rows that stay.
--   Auth.Guards: src/auth/guards/csrf.guard.ts, src/auth/guards/roles.guard.ts and
--     src/auth/strategies/jwt.strategy.ts.
--   Auth.Secrets: src/libs/common/utils/secret-crypto.ts; the two-factor services take what it stores and
--     reads as one text.
--   Auth.SignIn: getSignInMethods and disconnectProvider of src/user/user.service.ts; Methods asks what is
--     left to sign in with.
--   Teams.Workspaces: src/workspace/workspace.service.ts, with the ON DELETE rules of the schema.
--   Teams.Tasks: Shared is src/shared-task/shared-task.service.ts, Private is
--     src/private-task/private-task.service.ts.
--   Teams.Invites: src/invite/invite.service.ts.
--   Teams.Links: src/shared-link/shared-link.service.ts.
--   Files: src/file/file.service.ts. Names is sanitizeFilename (Extension and
--     Safety say what a stored name may hold), Uploads what an upload has passed, Quota
--     the storage limit under overlapping uploads, Trash removal and restoration, Sweep
--     src/file/file-cleanup.service.ts with its loop, and Ending when that loop ends.
--   Presence: src/presence/presence.service.ts. Lookups holds its laws, Refinement the abstract set of
--     connected sockets.
--   Chat: src/message/message.service.ts. Reading is about unread messages. Chat.Gateway is
--     src/message/message.gateway.ts: Viewing keeps the map of open threads, Late is about sending and
--     about handlers that go on after a disconnect.
--   Notifications: src/notification/notification.service.ts. Recipients says who is told, Delivery what is
--     sent, Own who reads it; FileComments is src/file/file-comment.service.ts.
--   Boards: src/whiteboard/whiteboard.service.ts, with Comments (whiteboard-comment.service.ts), Versions
--     (whiteboard-version.service.ts), Access, and Live (whiteboard.gateway.ts). Live.Saving and Flushing
--     are about the payloads that wait for their timer; Live.Overlap runs requests in parts, and Pointers,
--     Settling, Presenting and Overtaken are about the presented boards.
--   Sockets: src/libs/common/utils/socket-auth.ts and handleConnection of the gateways.
--   Accounts: deleteOwnAccount, getActivity and exportOwnData of src/user/user.service.ts.
--   Admin: src/admin/admin.service.ts. Suspending, Resetting and Deleting are about its operations on users.
--   Search: src/search/search.service.ts. Ranking is the order of the results, Visible what they may show.
--   Tests: the theorems at concrete inputs.
--
-- How code becomes definitions. A handler is a do block over the database, with the guards and writes
-- in the order of the code; an exception is an `err` with its HTTP status and a reason, and what was
-- written before it stays written, except in a $transaction. Each handler runs by itself; where two
-- requests may overlap, the handler is also given in parts (start_upload and commit_upload, start_restore
-- and commit_restore, start_remove and commit_remove, start_present and finish_present, start_delete and
-- broadcast_deleted), and the later part takes what the earlier one has read as an argument: Files.Quota
-- and Boards.Live.Overlap run these parts in any order. Ids, addresses,
-- hashes and other texts that the code only compares are numbers, 0 being the empty text; times are
-- milliseconds, with one reading of the clock for a request. A table is a list of rows, oldest first,
-- so that `orderBy createdAt asc` is the order of the list and `desc` its reversal. Random values
-- (ids, salts, tokens) are arguments. The JWT library, argon2, SHA-256, TOTP and the breach service
-- are fields of the record Deps, those that look into files are fields of Formats (sanitizeFilename takes
-- the extname of Node for POSIX paths, Names.node_extname), the WebAuthn library is
-- the record WebAuthn, the text search of the database is the record Matching, and what
-- Node gives to encryption is the record SecretCipher; what a theorem needs of them is among its hypotheses.
--
-- The gateways. A socket is a value with the fields that the code stamps on it, and what a gateway keeps
-- in memory (presence, viewers, waiting payloads, presented boards) is a record beside the database. What
-- is sent to a room is a row of `emitted`; the services of tasks and files do not write there. A handler is
-- one step, except that the part of a handler after an `await` is a step of its own where a disconnect or
-- the deletion of a board may come between. A handler closes a socket whose token has expired; the
-- disconnect handler that the library then calls is a handler of its own. A timer is a step that may come at any time after the drawing, the 2000 ms are recorded
-- in the payload.
--
-- Loops over rows are structural recursion. Only the loop of the trash sweep runs on fuel, one unit for
-- each round; how much is enough, and when none is, are theorems.
--
-- Not modelled: the texts of messages and e-mails, the columns that no decision reads (names, avatars,
-- descriptions), the dummy hash against timing, logging, the gateways of tasks, files and notifications,
-- controllers, DTO validation and mail delivery; and, for now, feedback, and the listings of the admin pages.
pub mod Base
pub mod Store
pub mod Auth
pub mod Teams
pub mod Files
pub mod Presence
pub mod Chat
pub mod Notifications
pub mod Boards
pub mod Sockets
pub mod Accounts
pub mod Admin
pub mod Search
mod Tests
