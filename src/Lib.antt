-- ===== src/Lib.antt =====
-- saysion: the sessions of a web framework, and their stores.
--
-- The program keeps a session as an id, an expiry and a map of texts, which request handlers share
-- by cloning it. A store of sessions persists it: the memory store under the id, the cookie stores
-- in the cookie itself, stores of other crates through a save token. The core of the program
-- decides which handle of a session may write or delete which record, whether its data has unsaved
-- changes, and what the cookie of a visitor gives access to.
--
-- Files, and the code that each one models:
--
--   Session         src/session.rs. Revision has the data and its change tracking (`SessionData`,
--                   `SaveRevision`), State the fields of a `Session` and its simple methods, Identity
--                   the authority to write (`persistence_origin`, `persistence_attempt`,
--                   `mark_persisted`, the core of `regenerate`), Cookies the server-side cookies
--                   (`id_from_cookie_value`, `new`, `regenerate`), Persist the snapshots, guarded
--                   writes, deletions and `validate_loaded`, Actions what the other handles of a
--                   session can do.
--   Lifecycle       src/session_lifecycle.rs: the lock of a clone family and its guards.
--   Save            src/session_save.rs: `SessionSave` and `SessionSnapshot`.
--   Memory          src/memory_store.rs. State has `MemoryState` with its index of expiries, Store the
--                   `SessionStore` of `MemoryStore`, Cleanup its batches, Cancellation what a future
--                   leaves that is dropped at an await, Client what one client of it does, View the
--                   abstract store of records, in whose terms Refinement describes its calls.
--   Cookie          Store has src/cookie_store.rs and src/signed_cookie_store.rs, Codec what they use
--                   of other crates.
--   Backend         what the three stores below do around their own writes, in `store_session`,
--                   `destroy_session` and `load_session`: the lock of the clone family, the settlement
--                   of its guard, the compensation of a save that a destruction overtakes.
--   Sql             src/sqlx_store.rs. Database is the connection, as a parameter, Table what SQL says
--                   of the statements, Store what the stores of the three databases share, Postgres,
--                   Sqlite and Mysql those stores with the texts of their statements, their migrations
--                   and their cleanup; Sqlite.Names has `index_target`.
--   Redis           src/redis_store.rs. Commands is the server, as a parameter, with what the manual
--                   says of its commands; Scan has `count` and `clear_store`.
--   Mongo           src/mongodb_store.rs. Documents is the collection, as a parameter, with what the
--                   manual says of its calls.
--   Contract        src/session_store.rs: the trait `SessionStore` as a record of functions, and what its
--                   documentation promises of a store with revocation, as a record of laws.
--   Stores          the memory store and those with a backend as implementations of that trait.
--   Diagnostics     the implementations of `Debug` in src/session.rs, src/session_save.rs,
--                   src/session_lifecycle.rs and the files of the stores.
--   Maps, Prelude   maps with text keys; numbers, texts, error results.
--   Tests           concrete sessions and stores, and runs of the code on them.
--
-- The other files under Session, Lifecycle, Save, Memory, Cookie, Backend, Sql, Redis and Mongo hold
-- proofs, and are named for what they are about.
--
-- How the code is represented. The fields of a `Session` that are behind an `Arc`, which all
-- clones of a session share, are one record `Lineage`; the others are the record `Session`. A
-- method takes the lineage and returns the new one, so that sharing is explicit; `Owned` is a
-- session whose lineage nobody shares. A `HashMap` is an association list; a function that
-- replaces a key keeps its place. A `BTreeSet` is a list in order. A time is a number of
-- nanoseconds since a fixed origin, which is a whole second, and that of Unix time where a backend
-- is told a time; the current time is an argument, and adding to it never overflows. Revisions
-- wrap at 2 ^ 64; counts of live save tokens are not bounded. Errors are values of one type, with
-- a constructor for each of the code's own messages. The length of a text is its number of bytes
-- in UTF-8.
--
-- Concurrency. Each lock of the code guards one field and is held within one method, so that a
-- method is one step. An `.await` on the lock of a clone family is a `Poll`: `pending` while a
-- guard is alive. A `Schedule` lists, for each await of a save into the memory store, what other
-- handles do to the shared fields meanwhile; the records are those that the save finds when it
-- gets the store's lock. A save into a store with a backend has a `Schedule` of its own, and a
-- backend that answers as it likes, unless a theorem takes what the backend documents as a
-- hypothesis. A statement, a command or a script is one step of its backend. What a future leaves
-- that is dropped at an await of the backend are functions of their own in Backend, and for the
-- awaits of the memory store in Memory.Cancellation. A save that is called undisturbed is one whose
-- schedule is empty. Lifecycle.Deletion and Session.Tracking run the code's operations in arbitrary
-- order, and Memory.Client those of one client, as step relations. Dropping a guard or a token is a
-- function of its own, called where the code drops it.
--
-- Fuel. The chunks of a cleanup are taken one per unit of fuel, and no chunk is empty, so that the
-- number of candidates is enough. The loops over `SCAN` of the Redis store take one call per unit
-- of fuel, and answer `none` if that is too few; one more than the number of calls that the server
-- needs for a full iteration is enough.
--
-- Other crates are parameters: base64 and blake3 (`External`), postcard and HMAC-SHA256 (`Codec`),
-- the bytes of the random generator, serde_json, sqlx, redis, mongodb. What a theorem needs of
-- them, such as that decoding takes back an encoding, is a hypothesis of it.
--
-- Not modelled: how the constructors of the stores connect to a backend, which is a parameter of
-- them; the panic of a poisoned lock; tracing, and debug output that is derived; the names that the
-- crate passes on (src/lib.rs).
pub mod Prelude
pub mod Maps
pub mod Session
pub mod Lifecycle
pub mod Memory
pub mod Save
pub mod Cookie
pub mod Backend
pub mod Contract
pub mod Diagnostics
pub mod Mongo
pub mod Redis
pub mod Sql
pub mod Stores
pub mod Tests
