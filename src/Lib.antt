-- ===== src/Lib.antt =====
-- A solo mining pool speaking Stratum: the parts that decide which work miners get, which shares
-- count, and which blocks reach the node.
--
-- The parts and how they interact. The engine (Engine.antt for src/mining/engine.rs) turns the
-- node's block templates into jobs by `build_job` and keeps a short history of them. A session
-- hands a miner's share with its job to `validate_share_no_dedup` (Validator.antt for
-- src/mining/validator.rs), which completes the job's coinbase, folds the merkle branch, builds the
-- header and compares its hash with the network's target and the session's; `ShareSet` refuses what
-- was seen before. A block goes back to the engine, which submits it. The session's difficulty is
-- Vardiff.antt (src/mining/vardiff.rs); bans, connection and share rates and per-session limits are
-- Security.antt with its children (src/security/mod.rs); errors and their Stratum codes are
-- Error.antt (src/error.rs). A Stratum V1 session is Session.antt with its children
-- (src/network/session.rs): it reads lines, takes each as a request of Sv1.antt
-- (src/protocol/sv1.rs), changes its state by a handler, and answers; between lines it takes new
-- jobs from the engine and retargets. A Stratum V2 session is Sv2.antt with its children
-- (src/protocol/sv2): it sends the same jobs as binary messages under ids of its own, and hands
-- shares to the same validator, duplicate set, guard and difficulty.
--
-- Which file models what:
--   Prelude and its children: shared names, lists, bytes, bits and machine words.
--   Template.Job, Template.Merkle, Template.Target, Template.PrevHash, Template.Coinbase and
--     Template.Build: src/bitcoin/template.rs, by the names of its functions (`assemble_coinbase`,
--     `merkle_root`, `compute_merkle_branch_raw`, `difficulty_to_target`, `compact_to_target`,
--     `hash_to_difficulty`, `stratum_prev_hash`, `build_coinbase`, `encode_bip34_height`,
--     `build_job`); GbtResult is of src/bitcoin/rpc.rs.
--   Validator and Validator.Shares: src/mining/validator.rs.
--   Vardiff: src/mining/vardiff.rs; VardiffConfig is of src/config.rs.
--   Engine: src/mining/engine.rs; JobEntry stands in Validator.
--   Security.Bans, Security.Connections and Security.Guard: src/security/mod.rs; Security.Table is
--     the map that the first two keep, by address.
--   Session.Reader: `read_line_bounded` of src/network/session.rs, on the buffers that arrive.
--   Session.Extranonce: `generate_extranonce1` of the same file.
--   Session.State, Session.Setup, Session.Submit and Session.Dispatch: the `Session` of the same
--     file and its handlers (`handle_configure`, `handle_suggest_difficulty`, `handle_subscribe`,
--     `handle_authorize`, `handle_submit`, `handle_line`). A handler takes and returns the state,
--     beside its answer and the calls that it makes of the statistics, in order.
--   Session.Events: the loop of `run` as steps on events (a line, a job, a retarget, a lag, a closed
--     channel), with what it does before and after.
--   Sv1.Parse and Sv1.Reply: src/protocol/sv1.rs; Sv1.Json is the interface of the JSON crate.
--   Sv2.Frame: src/protocol/sv2/messages.rs; Sv2.Job: src/protocol/sv2/job.rs; Sv2.JobIds,
--     Sv2.Channel, Sv2.Channel.Submit, Sv2.Channel.Dispatch and Sv2.Channel.Events:
--     src/protocol/sv2/mod.rs, the loop of `run` again as steps on events.
--   Files below these hold the theorems; Tests and its children apply them to concrete inputs.
--
-- How the code is translated. A function of the code is one by clauses of the same name; `Result`
-- has a third case for a panic, so that the absence of panics is a theorem. Mutable state is a
-- record that each operation takes and returns. Texts and hashes are lists of bytes; the display
-- texts of errors that only logs show are dropped. Integers are natural numbers, with the wrap-around,
-- the saturation or the cast written out where the code has it. Each reading of the clock is an
-- argument, in nanoseconds. SHA-256, hexadecimal text, the transaction serializer and the address
-- parser of the `bitcoin` crate, `f64` arithmetic, JSON values (crate `serde_json`) and the SV2 codecs
-- (crate `binary_sv2`) are parameters; a theorem that needs a law of theirs names it: Sha256Laws (a
-- digest has 32 bytes), HexLaws (decoding undoes encoding), EmbedsScript (a serialized transaction
-- contains its scriptSig), JsonLaws (a value is read as what it was built from). The metrics and the
-- log lines are dropped. A session's loop takes its events in the order of a list, as `select!`
-- would; the text check of a line (UTF-8) stands in its event.
--
-- Fuel: `height_bytes` has 8 rounds, as many as a u64 has bytes; `branch_loop` has as many rounds as
-- the level has nodes, and each round halves the level; `submit_loop` counts the three attempts of
-- the code.
--
-- Not modelled: sockets, writers and their failures in the SV1 session, timers and tasks, the
-- payload codecs of SV2, its handshake and its reader, the statistics behind the calls and
-- their storage, metrics, the dashboard, configuration files, the background retries and the archive
-- of found blocks, `bits_to_difficulty` (floating point) and `ShareHistory::from_unix_rows`.
pub mod Prelude
pub mod Error
pub mod Template
pub mod Validator
pub mod Security
pub mod Vardiff
pub mod Engine
pub mod Sv1
pub mod Session
pub mod Sv2
pub mod Tests
