-- ===== src/Lib.antt =====
-- Verification of the Host of the keyboard (Rust, app/host/src): its side of the LAN link (the playback
-- protocol, the transfer of a spoken summary to the device, the voice frames that the device sends, and
-- the recordings made of them), and its database (the prompts that wait for each task, the completions
-- read from the rollouts, and the playback of the summaries).
--
-- The program's parts and how they meet. The ingress worker (`LanVoiceIngress::start` in
-- app/host/src/lan_voice.rs) reads one UDP socket. A datagram with a playback magic goes to
-- `ActiveLanPlayback`, a heartbeat is answered with the mailbox status, and every other datagram goes
-- to `CaptureAssembler`. The first uses the packets of app/host/src/lan_playback.rs, the second the
-- voice frames of app/host/src/lan_voice.rs. Both trust a datagram only after its tag is checked under
-- the device's key. The worker queues events for the rest of the Host, and takes its commands. The
-- rest of the Host keeps its state in one SQLite database, `StateStore` in app/host/src/store.rs: a
-- prompt becomes a job, a worker claims and acknowledges it, an observer records completions, and a
-- playback request of the device leases the summary that is sent to it. The mailbox status that answers
-- a heartbeat is computed from the same tables.
--
-- Which file models which part:
--   Base            numbers, tests, lists, little-endian bytes, `Result` with its `do` blocks
--   Crypto          what is taken from the crates for HMAC-SHA256 and AES-256-GCM, as a record of
--                   operations with two records of laws; Crypto/Toy is an instance for the examples
--   LanPlayback     app/host/src/lan_playback.rs: the records and the identity; Auth (`sign`, `verify`,
--                   `verify_fixed`), Control (request, begin, acknowledgement, finished, finish
--                   acknowledgement; a child for the laws of each), Payload (the encrypted chunks; Keys,
--                   RoundTrip) and Mailbox (the mailbox status)
--   LanVoice        app/host/src/lan_voice.rs: Playback (`ActiveLanPlayback`), Frames (the parsers of
--                   voice datagrams), Capture (`CaptureAssembler`) and Error (the errors)
--     Playback      the state and the socket; Command (`handle_command`), Heartbeat
--                   (`handle_heartbeat`), Ingest (`ingest`, `accept_request_generation`), Ack
--                   (`accept_ack`), Send (`send_next_data`), Tick (`tick`) and History (sequences of
--                   calls); Bounds, Delivery, Endings, Finish, Chunks, Replay, Stuck, Overdue and
--                   Beacon hold the proofs
--     Capture       the state, `retire`, `complete`, `take_ready`, `expire_incomplete`; Ingest
--                   (`ingest`, `ingest_end`); Maps, Invariant, Steps and History hold the proofs
--   Audio           app/host/src/audio.rs: `validate_pcm`; in Wav `encode_wav` and `decode_wav`, in Ima
--                   `encode_ima_sample` and `decode_ima_sample`; WavLaws, ImaLaws and ImaError hold
--                   the proofs
--   Cache           app/host/src/cache.rs: `CacheId` and its text; Reference holds the proofs
--   Store           app/host/src/store.rs: the errors, the limits and what is taken from other crates;
--                   Tables (SELECT, UPDATE and DELETE on lists of rows), Ledger (the rows), Jobs
--                   (`enqueue`, `claim_next_runnable`, `mark_completed`, `mark_failed`,
--                   `recover_interrupted_jobs`), Bindings (`set_binding`), Rollouts
--                   (`commit_rollout_completion_on`), Mailbox (`query_current_unread`,
--                   `mailbox_status`) and Playback (`acquire_summary_playback`,
--                   `cancel_summary_playback`, `finish_summary_playback`), Summaries (loading a claim,
--                   `load_summary_claim`; Claim has `claim_summary`, Publish `publish_summary`, Publication
--                   the attempts of speech synthesis and `abandon_summary_claim`)
--     Jobs          Invariant, Split, Claims, Outcomes, Endings and Kept hold the proofs; Queue has the
--                   abstract queues, Refinement and Acknowledgement the proofs about them
--     Playback      Leases, Kept, Started, Acquire, Calls and Ends hold the proofs
--     Rollouts      Laws and Moves hold the proofs
--     Summaries     Collect and Pending hold the proofs
--
-- How the code is modelled. An integer is a natural number, with the bounds of its type where it is
-- encoded or cut; a byte sequence is a list. A method on `&mut self` takes the state and returns the
-- next one; a `Result` is a sum. What a handler does to the outside is in a record `World`: how many
-- datagrams it tried to send, those sent, and the events queued. A socket is a function from the
-- number of the call to its outcome, so that a theorem holds for every pattern of failures. An
-- `Instant` is a number of milliseconds, and a handler reads the clock once. A socket address is a
-- number. The `BTreeMap` of recordings is a list in the order of its keys.
-- A table of the database is the list of its rows in the order of their insertion, and a statement of
-- SQL a function on it; a transaction that is rolled back leaves the tables as they were. A constraint
-- of the schema is written where a statement can break it, and an invariant where none can. Columns
-- that hold the time of a write are left out; completions are taken in the order of their insertion,
-- which is that of `observed_at` while the clock does not run backwards. `Store.External` has what the store takes from other code
-- (`Uuid::parse_str`, `str::trim`, tests on a `Path`, the parser of JSON, SHA-256).
--
-- Bounds and fuel: the loop over the chunks of a window runs on fuel, the number of bytes of the
-- window. Each round moves the offset by at least one byte, so the fuel is enough. The loop in
-- `retire` is a recursion on the list, since it only drops from the front. The decimal digits of a
-- generation are written in 20 places, enough for 64 bits.
--
-- Not modelled: threads, channels that are full or closed, diagnostics and log lines; speech
-- recognition; the frames and the container of EIAD; SQLite, the migrations, the files of the caches, the runners of external programs, the desktop application
-- and the firmware. The crates for cryptography are parameters: that a
-- tag or a ciphertext cannot be forged is not assumed, so the theorems say what holds of a packet that
-- passed its test.
pub mod Base
pub mod Crypto
pub mod LanPlayback
pub mod LanVoice
pub mod Audio
pub mod Cache
pub mod Store
