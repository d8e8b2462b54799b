-- ===== src/Lib.antt =====
-- The repository is a team workspace: a messaging service, an asset service, an auth service and a
-- worker behind a web client, and a delivery tool that takes an issue through a fixed line of
-- writing and reviewing stages. This library models the parts that carry its own logic.
--
-- Delivery models tools/delivery/delivery/run. Delivery/Stage, Delivery/State and Delivery/Verdict
-- are the stages, the state of a run (`State`), and what a stage reports and the loop is told
-- (`Advance`, `RunError`); Delivery/Machine is machine.py, each function under its own name, with
-- `advance` as the step and the file system as the parameter `exists`. A mutation is the state that
-- comes back, beside the error too, since Python keeps what was written before a raise. Its child
-- modules hold the theorems by what they prove. Delivery/Rules is rules.py: the turns, the model and
-- the effort of a pass, and in Delivery/Rules/Tools the tools of each stage. Delivery/Invoke is
-- invoke.py: running an agent, with the calls of the runner as a list.
--
-- Messaging models src/services/messaging/messaging. Messaging/Models has the rows of models.py and
-- Messaging/Session a transaction: the committed rows and the rows as it sees them, which
-- `session.rollback` takes back. Messaging/Names and Messaging/Channels are channels.py
-- (`validate_name`, the visibility rule, the counts; the writes are in Messaging/Channels/Writes),
-- Messaging/Dms is dms.py, Messaging/Messages is messages.py, Messaging/ReadState is read_state.py,
-- Messaging/Threads is threads.py and Messaging/Reactions is reactions.py, with `_state_of` of
-- routers/reactions.py. Messages and read
-- markers ask Channels whether the caller sees the channel; Channels asks Dms for the partner. An
-- SQL statement is the list function that it means: a `WHERE` is a Boolean test, a unique index a
-- test of the insert or update, and `rowcount` whether a row was found. A new id (`uuid7()`) and
-- the time are arguments.
--
-- Asset models src/services/asset/asset. Asset/Rules is rules.py and the row, Asset/Routes what the
-- routes of routers/assets.py and routers/internal.py do to the rows; the answer of the object
-- store's `head` is an argument. Messaging calls the claim when a message with
-- attachments is sent: Messaging/Attachments is attachments.py, and Messaging/Attachments/Claims puts
-- the two sides together.
--
-- Auth models src/services/auth/auth. Auth/Rows has the rows of models.py, Auth/Identities the
-- memberships, roles and their guards of identities.py, Auth/Members its list of members, Auth/Names
-- the rules of display names of names.py with what Python knows of Unicode as a parameter,
-- Auth/Sessions the refresh tokens of sessions.py, and Auth/Routes the routes of routers/auth.py that
-- spend, rotate and revoke them. The SHA-256 of a token is the parameter `hash`; a request is one
-- step, and its commits are written out: what a route writes before it raises stays only where it
-- commits it. The loop along a rotation chain runs on fuel, a round for each row and one more, and
-- is proved to end within it.
--
-- Worker models src/services/worker/worker/consumer.py. In Worker/Consumer the answers of Redis are
-- arguments, and handler calls and transactions are events that come back; Worker/Consumer/Loop is
-- the loop of `run`. A handler is a function on a state of its own.
--
-- Shared models src/services/shared/shared: Shared/Ids is ids.py, the generator of UUID v7 with its
-- two process variables as the state, and Shared/Pagination is pagination.py. The lists that use it
-- are Messaging/Pages (the pages of channels.py, messages.py and threads.py) and Auth/Members: each is
-- its query in the order of its key (Shared/Pagination/Ordered), cut at the cursor, and
-- `build_page`. Base64, and the text of a UUID or a time, are parameters.
--
-- Prelude has what these share: tests on numbers, lists, the result of code that may raise, and
-- tables (queries, updates, keys and counts over lists of rows).
--
-- Bounds: numbers are natural numbers, as Python's integers have no width and the counters of the
-- rows stay small; an id of `uuid7` is refused beyond 128 bits, as `uuid.UUID` does. Fuel bounds
-- the walk along a rotation chain, a client's walk through pages, the deliveries of an entry and
-- the search for a free name, each with a theorem that names how much is enough. The other
-- definitions are by structural recursion, and sequences of stages, requests or calls are step
-- relations.
--
-- Not modelled: HTTP, JSON, cookies and access tokens, the database's locking (a statement or a
-- locked route is one step), search, indexing and realtime events of the messaging service, sign-in
-- of the auth service, the rest of the shared library, the worker's indexing, the delivery tool's
-- loop and its calls of git and GitHub, and the web client.
pub mod Prelude
pub mod Delivery
pub mod Messaging
pub mod Asset
pub mod Shared
pub mod Auth
pub mod Worker
