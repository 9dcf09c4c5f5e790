-- ===== src/Lib.antt =====
-- The server part of remarkable-server: a sync and notification server for reMarkable tablets. The
-- parts of src/ that carry its session, revocation, approval, conflict and root-commit decisions,
-- and the scanner of streamed JSON bodies, are modelled as functions, with the theorems that make
-- them correct.
--
-- Mqtt is src/mqtt_ws.rs. Mqtt/Codec holds the packet codec (`parse_remaining_length`,
-- `build_publish` and the others under the source's names), Mqtt/Connect the checks of
-- `connect_token` (Mqtt/Connect/Written says what a client writes), Mqtt/Session one function for
-- each branch of `run_mqtt_session`: `step` is one round of its loop, over the state in `Session`
-- and the frames sent in `Sender`. A sink has room for a number of frames, and sending fails past
-- it. JSON, authentication and the clock are parameters. The parser of lengths recurses on its
-- input. The writer of lengths and the SUBSCRIBE loop have fuel: the length itself, and the length
-- of the frame. Notifications is src/notifications.rs, whose messages a session pushes.
--
-- Device/Registry is the part of src/device.rs on registrations, revocation epochs and pairing
-- codes (`register`, `unregister`, `exchange_code`, `check_registration`), over tables that are
-- functions from their keys; Device/Changes and Device/Revocation follow tokens over sequences of
-- calls, and Device/Pairing a pairing code. Device/Tokens is what a token opens
-- (`session_identity`, `session_still_valid`, `revoke_device_token`), with decoding and signing as
-- parameters. Device/Resets is src/passcode.rs with its table in src/device.rs. Within one call
-- the clock stands still, and the database does not fail. The claims that are minted are not
-- modelled: a token is its device, user and epoch, and a handler takes what `caller` said.
--
-- OAuth/Pending is `PendingCodes` of src/oauth.rs, and OAuth/Limiter its `DeviceCodeLimiter`. A
-- `HashMap` is an association list, an instant a number of seconds. The loops that make room have
-- the size of their table as fuel, since each round removes an entry.
--
-- JsonScan is src/json_scan.rs: JsonScan/Structure the values, JsonScan/Text the strings and
-- JsonScan/Feed the loops of `feed`, whose fuel is the length of the chunk, or twice that where a
-- numeral may end. JsonScan/ByByte reads the same state one byte at a time; JsonScan/Body is the
-- caller of src/upload.rs, which feeds a body in pieces, and JsonScan/Chunks, JsonScan/Payload and
-- JsonScan/Bounds hold what is proved of it. serde_json's test of a numeral is a parameter, and a
-- streamed member is kept as its base64 text.
--
-- Storage/Root is the sync root of src/storage.rs: its row in sync.db, the mirror root.json,
-- opening a directory (`open_root`) and the compare-and-set (`set_root_if`), with the root upload
-- of src/sync15.rs (`put_root`). Storage/Root/Commits compares it with a log. root.json is
-- readable where it is there, the row is the only state that processes share, and a generation
-- wraps at 2^64. Storage/Index is the strict parser of a sync index (`parse_index`) on the
-- characters of its text, with what it uses of `str` written out. Storage/Blobs is the store of
-- blobs with its tables, Storage/Tree the projection of parsed indexes (`ensure_indexed`,
-- `index_tree`) and the walk of a tree (`add_tree`), and Storage/Gc what the tree needs
-- (`missing_from_root`, `is_referenced`) and garbage collection (`gc_plan`, `gc_execute`), in
-- batches with what others do between them as an argument. Storage/Catalogue puts streamed uploads
-- in their place (`put_file_with_hash`), clears the store and opens it again (`Storage::new`,
-- `reconcile_blobs`), the names that a walk of the directories meets being an argument. Files and
-- tables are read and written without failure, but a file may refuse to be removed; the clock and
-- the decoding of UTF-8 are parameters.
--
-- Documents is src/documents.rs: the entries of a root index, its parser and printer, and
-- Documents/Commit the commit of new documents, which others' writes may turn back five times at
-- most, and Documents/Blobs the blobs of a new document. SHA-256, UTF-8 and the hex crate are parameters.
--
-- Sync/Paths is the paths of src/integrations/sync.rs (`safe_components`, `local_path_for`), as bytes
-- and with the components of Unix. Sync/Paths/Inside says where a file system goes along them.
--
-- Conflict is src/integrations/conflict.rs, with the line merge of the diffy crate as a parameter.
-- Errors is src/error.rs. Base holds the shared tests, lists, tables and results, and Examples
-- runs the theorems on concrete inputs.
--
-- Not modelled: staged documents, folders, calendars, feeds, the cloud clients, search, screen
-- share, the staging of uploads, email and firmware, and the wiring of the HTTP server.
pub mod Base
pub mod Notifications
pub mod Errors
pub mod Device
pub mod Documents
pub mod Mqtt
pub mod OAuth
pub mod Conflict
pub mod JsonScan
pub mod Storage
pub mod Sync
pub mod Examples
