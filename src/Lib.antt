-- ===== src/Lib.antt =====
-- The Jagalchi product API: models of its core services, and theorems about them.
--
-- The program is a NestJS server over PostgreSQL. Eight of its parts are modelled.
--
-- * Workflow operations (src/workflow-operations): long work is a row of a table, which workers
--   claim under a lease, report on, retry or abandon, and which owners create and cancel.
--   Workflow has the rows (Types), createOrReplay (Create), claim and the heartbeats (Claim),
--   the two routes of cancellation (Cancel), the reports of a worker (Finish), reapExpired
--   (Reap), the backoff policy (Backoff) and one turn of the worker (Worker: runOnce,
--   classifyFailure, resourceMetadata). Valid and Edges state the invariant of a row and the
--   diagram of states, Sound those of the tables; Calls, Leasing, Completion and Requests are on
--   each method; Run is any sequence of calls. Steps is the diagram with the calls that may take
--   each edge, Reports the edges that they take, Path that of any sequence. Ownership,
--   Scheduling, Replay, Cancelling, Resources, Endings, Turns, Outcomes and Losses are on single
--   behaviours. Json is the JSON of requests and canonicalJson, by which they are compared.
-- * Tickets (src/tickets): balances and their ledger. Tickets.Service is tickets.service.ts,
--   with the prices of ticket-policy.ts in Types; Purchases is
--   purchases/ticket-purchases.service.ts. Ledger, Balanced and Refunds have the invariant of
--   the tables, Run any sequence of calls; Sales, Races, Charges and Grants are on purchases,
--   reservations and the monthly grant.
-- * Roadmaps (src/roadmaps): Roadmaps.Service and Directories are roadmaps.service.ts, Views two
--   of its reads, Graph its validation of graphs, and Shape is on what that lets pass. Forest,
--   Moves, Removals and Tree are on directories, Reactions on likes and favorites.
-- * Realtime (src/realtime): Realtime is realtime-ticket.service.ts, and realtime.service.ts is
--   in Realtime.Append (the log of operations, a number for each) and Realtime.Graph (what an
--   operation makes of the JSON of a graph); Realtime.Requests is parseEditRequest of
--   realtime.types.ts. Edges and Joined are on the edges, Sequence on the numbers, Again on
--   operations that are sent twice, Once on tickets.
-- * Verification (src/verification-providers/verification-evaluator.ts): which rules of a task
--   the facts of a pull request meet. Evaluator.Globs is pathMatches, Digest the digests of
--   facts, Facts the checks of facts and rules, Evaluate the evaluator; Meaning and Pieces are
--   on globs, Rules on proofs.
-- * Social (src/social): comments, follows and notifications, in Social.Service, Notices and
--   Views; they read the roadmaps of Roadmaps.Service. Threads and Run are on replies and
--   deleted comments.
-- * Authentication (src/auth): Auth.Passwords is password.ts, and auth.service.ts is in Sessions
--   (refresh tokens), Challenges (one-time codes by e-mail), Accounts (registration, login,
--   reset, deletion), Profiles and Oauth. Registration opens the account of tickets by
--   Tickets.Service. Moves is what each method does to the sessions, Families their invariant,
--   Untouched and Quiet the methods that leave a table alone, Run any sequence of calls;
--   Refreshing, Recovery, Recovering and Codes are on single behaviours.
--
-- Correspondence. A table is a list of rows, a method one function from the tables and its
-- arguments to its answer and the new tables. What a method throws is a value of the component's
-- Error, and the tables are then those of the last commit. Identifiers that the database draws
-- and readings of the clock are arguments, one for each; times are milliseconds since the epoch.
-- Where other clients can commit between two statements of a method, what they commit is an
-- argument, a function on the tables (others, in_between), and the theorems say which they
-- allow. Rows that a query skips as locked are a predicate. The methods of tickets.service.ts
-- and roadmaps.service.ts are each taken to run alone, and so are those of auth.service.ts,
-- social.service.ts and realtime.service.ts, with one reading of the clock for a call. Names are
-- those of the source in snake case.
--
-- Bounds. createOrReplay calls itself after a conflict: its model takes one round for each pass,
-- and Workflow.Replay is on how many it needs. moveDirectory climbs at most 100 parents in the
-- source, and so does climb. Calendar months are computed from milliseconds for times from 1970
-- on.
--
-- Parameters: locale order, JSON.stringify of scalars and SHA-256 (Json.Canonical.Runtime), trim
-- and toLowerCase (Roadmaps.Types.Text), the verifiers of the two stores
-- (Tickets.Purchases.Shop), hashes, signatures of tokens, key derivation and addresses
-- (Auth.Types.Runtime, Auth.Oauth.Web), the mail service (Auth.Challenges.MailService), the
-- answers of login providers, the tests of white space and of Date.parse (arguments of
-- Evaluator.Evaluate), and the trimming and slicing of texts (Realtime.Graph.TitleText,
-- Social.Service.CommentText).
--
-- Not modelled: the ORM and SQL themselves, columns that the ORM keeps and nothing reads,
-- controllers, guards and validation of requests, timers and shutdown of the worker, the gateway
-- of src/realtime with its rooms, and the other services of the server (career, github, ai,
-- project runs, uploads, job sources), many of which call remote services.
pub mod Base
pub mod Json
pub mod Workflow
pub mod Tickets
pub mod Roadmaps
pub mod Realtime
pub mod Auth
pub mod Social
pub mod Evaluator
