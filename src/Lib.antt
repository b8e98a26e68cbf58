-- ===== src/Lib.antt =====
-- teled is a server for the Telegram protocol with its own storage. This library models the part of
-- it that decides what users see: the in-memory storage and object store, and the RPC handlers for logging
-- in, messages, dialogs, drafts, contacts, accounts, bots, media, updates and BotFather, and the MTProto
-- server between them and the clients.
--
-- Parts, and the files that model them:
-- - Prelude and its children: shared names, Boolean tests, lists, sorting, Go maps, Go integers, text.
-- - Types: the public data model (message.go, users.go, file.go, updates.go, bot.go, db.go).
-- - Memory (memory/db.go): State is the struct DB and its rows; Messages is SendMessage, GetHistory
--   and MessageByGlobal; Revisions is EditMessage and DeleteMessages; Reading is ReadHistory and
--   GetDialogs; History is SearchMessages; Updates is GetState, GetDifference and the files; Users is
--   the accounts, bots, profiles and usernames; Rows is the phone codes, sessions, temporary keys,
--   contacts, drafts, BotFather states and bot commands.
-- - Memory/Account: when a database is valid, and what each operation does to the accounts. Its
--   children are named for the operation that they are about.
-- - Objects (memory/objstore.go) is the object store; Objects/Ranges is about its reads.
-- - Mtproto (internal/mtproto): Keys is keystorage.go; Registry is registry.go; Sending is send.go;
--   Handling is handle.go; Serving is conn.go; Buffered is buffered.go; Middleware is middleware.go.
--   Coherence is about the cache of keys, Greeting about new_session_created, Answers about containers and Closing about the end of a connection.
--   Its handler is a parameter; the handlers of Rpc push to sessions by a parameter.
-- - Delivery: a push of Rpc over the connections of Mtproto.
-- - Rpc (internal/rpc): Reply is the form of a handler; Caller is requireCaller, bindCaller and the
--   resolution of peers (convert.go, handler.go, contacts.go); Auth is auth.go; Registry is the
--   session registry of registry.go; Updates is updates.go; BotFather is the engine of botfather.go;
--   Staging is staging.go; Server is the state that the handlers share, pushes and OnMessage; Messages
--   is messages.go and the answers of botfather.go; Dialogs is messages_more.go; Drafts is drafts.go; Contacts
--   is contacts.go; Account is account.go, users.go and bots.go; Media is media.go.
--   Codes, Keys and Login are about auth.go, Live about registry.go, Catching about updates.go,
--   Sparing, Engine and Making about botfather.go, Pushing and Sending about messages.go,
--   Naming about account.go, Drafting about drafts.go, and
--   Staging/Parts, Uploading, Storing and Filing about staging.go and media.go.
-- - Postgres (internal/db): Tables is the tables of _migrations, Sql a statement and a transaction; Messages and
--   History are message.go; Revisions is edit_delete.go; Reading is dialogs.go; Updates is updates.go and file.go;
--   Users is user.go; Keys is session.go, phonecode.go and keystore.go; Rows is contacts.go, drafts.go, bots.go and
--   botfather.go. Selecting and Keyed are about queries, Running about statements that come through, Outages about
--   servers of which some statements fail. Postgres/Agrees is about the tables and the in-memory database side by side.
--
-- How code corresponds to definitions. A method of DB holds the mutex until it returns, so it is one
-- function from the state to a result and the next state; the clock, the random numbers and the token
-- secret that a method reads are arguments. An error is `err`, a nil dereference is `panic`, and a
-- handler's error reply is `fail`. A handler's storage calls follow one another in a do block, and what
-- was stored before an error stays stored. A definition has the name of its method in snake case.
-- A handler's storage calls are modelled without interference by other goroutines. The handlers are
-- those of a server with a database; `with_db` is the answer without one.
--
-- Representations. int64 and int are 64-bit words biased by 2^63, so order and equality are those of
-- the numbers and every addition wraps. A string is the list of its bytes. A map is an association
-- list; the list gives the order of a `range` loop, which Go leaves open. A time is a number of
-- nanoseconds since year 1. A key id of eight bytes is a number. Loops are structural recursion over
-- the slice or map that they range over, over what a connection receives or a decoder finds, or on the
-- number of their rounds, so no fuel is used. The results that need a sequence not to
-- wrap take that as a hypothesis, and each has an instance.
--
-- A SQL statement is its effect on the rows: the columns, keys, references and defaults of the tables, NULL, what
-- ON CONFLICT, RETURNING, ORDER BY and LIMIT do, and a fault where PostgreSQL reports an error. A statement that fails
-- for another reason is an outage, which the store foretells. Concurrent transactions are not interleaved.
--
-- Not modelled: the connection pool, the migrator and the query telemetry of PostgreSQL, the key exchange, the decoders and the cipher of
-- the library gotd/td, the accept loop, the object store on files, the handlers with fixed answers, the wire form of messages, drafts and photos with their entities (an update
-- carries the stored form), telemetry, logging and the command line. Whether a push to a session's connection
-- succeeds, sha256, strings.ToLower, TrimSpace, EqualFold and Fields, and the pattern match ILIKE, are parameters. Reads of the random source
-- and of the stored objects do not fail.
pub mod Prelude
pub mod Types
pub mod Memory
pub mod Objects
pub mod Mtproto
pub mod Rpc
pub mod Delivery
pub mod Postgres
