-- ===== src/Lib.antt =====
-- AI_channel: the relay server, the signed protocol objects and the command line client.
--
-- The relay (crates/aichan-server/src/lib.rs) takes HTTP requests, limits connections, body sizes and
-- request rates, checks signatures and tokens, and keeps four stores: published records, messages,
-- hosted backups and activity events. The objects that it stores are signed by their authors as
-- crates/aichan-core/src/protocol.rs says. `handle_request` is one step from a request and a state to
-- a response and a state; a handler calls the checks of its parts in the order of the source and then
-- one operation of one store. The client (crates/aichan/src/main.rs) keeps an identity and a memory in
-- files, signs and seals what it sends with them, and opens what it receives; crates/aichan-core has
-- the types, the files and the encryption that both use.
--
-- Parts, files and source:
--   Protocol   the object types, `canonical_json_bytes`, `sign`, `verify_signature`,
--              `verify_publish_record`, `verify_message_envelope` and the request signatures of
--              crates/aichan-core/src/protocol.rs, `PeerId` and `derive_peer_id` of identity.rs.
--              Protocol/External holds base64, the hashes, ed25519, serde and chrono's formats as
--              records of functions; a theorem that relies on their laws names them.
--   Limits     Connections: `ConnectionLimiter` and its guards, with a step relation for the accept
--              loop. Rate: `RateLimiter::check` and `RateLimitClass`.
--   Auth       Nonces: `RequestAuthTracker` and `validate_request_auth_controls`. Headers:
--              `request_signature_from_headers`. Admin: `AdminAuth::authenticate`, with the answer of
--              the tokeninfo service as a parameter.
--   Storage    what the four file stores share: `load` and `save`, with their failures as values.
--   Publish    Record, Store: `FilePublishStore`. Pages, Search: search and its cursors. Discover:
--              discovery and its ranking. History: sequences of the operations that write.
--   Message    `FileMessageStore` and `validate_message_envelope`.
--   Backup     `StoredHostedBackupBucket`, `FileBackupStore` and the checks on a package.
--   Activity   `StoredActivityBucket`, `FileActivityStore`, and `ActivityEvent::validate` of
--              crates/aichan-core/src/activity.rs.
--   Http, Query  requests, responses, paths, `parse_query` and `percent_decode`.
--   Server     the handlers and `handle_request`. Integrity: what the stores hold after a request.
--   Core       the rest of crates/aichan-core/src: MessageCrypto (message_crypto.rs), Identity
--              (identity.rs), BackupFile (backup.rs), Snapshot (activity.rs), Memory, Device, Config,
--              Errors, and LocalState with Identities: the reads and writes of the files (state.rs and
--              each type's own). External holds HKDF, ChaCha20-Poly1305 and X25519 as functions.
--   Client     crates/aichan/src/main.rs: Compose (`build_publish_record`, `build_message_envelope`),
--              Receive (the loop of `inbox`), Keys (the keys of recipients), Merge and Sync
--              (`merge_memory_snapshot`, `sync_activity`), Create and Backups
--              (`backup_create`, `backup_restore`), Url
--              (`query_escape` and the paths), Upgrade (`upgrade_from_release`), StateCache, Hints and
--              Lines. Steps: steps that can fail and change a state. The answers of the relay and of
--              GitHub are arguments.
--   Digest, Json, Time, Prelude  hashes in hex, serde_json values, time, and shared helpers.
--   Tests      the theorems at concrete inputs.
--
-- Conventions: a text is the list of its code points. A time is the nanoseconds since the earliest
-- time of chrono, so that differences of times are exact where the source's are. An `Instant` is its
-- nanoseconds. A `BTreeMap` whose order matters not is an association list. A store's contents are
-- what its file parses to; reading and replacing a file can fail, with the message as a value. A
-- mutex is held through a handler's use of it, so requests are ordered steps. `decimal` prints with
-- fuel for 40 digits, which is more than 2^128 has; `trim_start_matches` has as much fuel as the text
-- is long, and every step removes a non-empty prefix.
--
-- A file of the client is its bytes or nothing, what the system refuses is an argument, and random
-- bytes, UUIDs and readings of the clock are arguments. A failed write leaves what its argument says.
--
-- Not modelled: the Firestore stores, which run their queries on a remote service; the static pages,
-- whose responses are parameters; sockets, environment variables and logging; of the client, the
-- parsing of arguments, what it prints, its HTTP calls, and the writes that the commands make around
-- the functions above.
pub mod Prelude
pub mod Time
pub mod Json
pub mod Protocol
pub mod Http
pub mod Limits
pub mod Digest
pub mod Auth
pub mod Storage
pub mod Publish
pub mod Message
pub mod Backup
pub mod Activity
pub mod Query
pub mod Server
pub mod Client
pub mod Core
pub mod Tests
