-- ===== src/Lib.antt =====
-- Cofferwire: the queue protocol, from the client that sends a request to the tables of the relay.
--
-- A sender leaves messages in a queue of the relay and a recipient fetches and acknowledges them.
-- A request arrives as a frame; the daemon (apps/cofferwired) decodes it (crates/cofferwire-codec),
-- counts it against the budget of its principal, and gives it to the durable relay
-- (crates/cofferwire-relay/src/durable.rs), which runs it in a transaction of SQLite together with
-- a record of its response (replay.rs). The relay in memory (crates/cofferwire-relay/src/lib.rs)
-- keeps the same queues without a database and says what the commands mean.
--
-- Base: numbers, byte strings, maps and lists for all. Base/Map is HashMap as an association list
--   with one entry for a key; Base/BigEndian is to_be_bytes, from_be_bytes and the order of BLOBs.
-- Types, Wire: crates/cofferwire-types. Identifiers are byte strings, times and lifetimes numbers,
--   with the bound 2 ^ 64 written out where the source checks it (checked_add).
-- Policy: limits, access policy and errors of a queue, which both relays share.
-- Relay: crates/cofferwire-relay/src/lib.rs, an operation of Relay for each function of that name.
--   Each returns its answer with the next state, since discard_expired changes a queue also where
--   the operation then fails. Relay/Run has calls as data and histories of them.
-- Storage: what the durable relay uses of SQLite through rusqlite, which is no code of the
--   repository: the record Engine is a parameter, with what the relay relies on as its laws: a
--   statement that succeeds does what it says, a commit keeps all of a transaction or reports an
--   error and keeps nothing, a rollback undoes it. Storage/Memory is an engine that has the laws.
--   Storage/Program has transactions as sequences of statements.
-- Tables, Durable: crates/cofferwire-relay/src/durable.rs, the schema and each SQL statement as a
--   function of the tables, and each method named _tx as a program of statements. Numbers in the
--   tables are strings of 8 bytes, which are compared as the source's SQL compares them.
-- Replay, Requests: replay.rs and the request exchange of durable.rs.
-- Cbor, Codec: crates/cofferwire-codec. A decoder is its offset with the bytes from there on. Codec
--   has the frames of requests and Codec/Responses those of responses; Codec/Reads composes what is
--   read back from an encoding, and Codec/Written what is accepted.
-- Status: crates/cofferwire-types/src/status.rs and the responses of body.rs.
-- Crypto: crates/cofferwire-crypto/src/lib.rs. The libraries for signatures and encryption are the
--   record Primitives of Crypto/Suite, with what they document as laws; Crypto/Sample has the laws.
-- Client: crates/cofferwire-client/src/lib.rs, with Client/Sender and Client/Recipient. The traits
--   for the transport, the store and the identifiers are a record of functions over a state, and a
--   method is a step that stops at its first error.
-- Offline: crates/cofferwire-client/src/offline.rs. Cursor is a function of the bytes that are left, and
--   the trait BundleStore a function over the state of what implements it.
-- Receipt: crates/cofferwire-crypto/src/receipt.rs and crates/cofferwire-client/src/receipt.rs. SHA-256
--   and the store are parameters.
-- Blob: crates/cofferwire-relay/src/durable_blob.rs, its transactions in the same way as those of
--   Durable, over tables of its own (Blob/Tables); Blob/Manifest and Blob/Wire are
--   crates/cofferwire-types/src/blob.rs. SHA-256 is a parameter. Blob/Success composes what holds
--   where a transaction succeeds.
-- Service: apps/cofferwired/src/lib.rs, the exchange of a queue frame, which puts the codec, the
--   proofs, the limiter and the durable relay together. A lock is a flag that says if it is poisoned.
-- RateLimit: apps/cofferwired/src/rate_limit.rs.
--
-- A machine with 64 bits is assumed: a usize is a u64. The rowid of SQLite is a number without a
-- bound. Nothing runs on fuel: every loop goes down a list or a number.
--
-- Not modelled: opening and migrating the database and the classification of its error codes; the
-- blob codec, client and exchange of frames; the making of keys from seeds; texts of
-- errors; transports, connection limits and the process around the service.
--
-- Where durable_blob.rs turns an engine error on the read of a chunk into NotFound or Incomplete
-- (get_blob_chunk_tx, the loop of commit_blob_tx), the model reports an error of storage.
pub mod Base
pub mod Blob
pub mod Cbor
pub mod Client
pub mod Codec
pub mod Crypto
pub mod Durable
pub mod Offline
pub mod Policy
pub mod RateLimit
pub mod Receipt
pub mod Relay
pub mod Replay
pub mod Requests
pub mod Service
pub mod Status
pub mod Storage
pub mod Tables
pub mod Types
pub mod Wire
