-- ===== src/Lib.antt =====
-- IGRIS v5: a model of the device, policy, orchestration, agent, reflex, router, tool, skill,
-- sandbox, voice, memory, context, event and telemetry crates, with the command line and the
-- backend of the FIELD application.
--
-- The program is a personal assistant that acts through devices, tools and agents. A request is
-- first decided by rules (igris-reflex) and sent to a model (igris-router); work runs as missions,
-- graphs of tasks (igris-orchestrator), which agents plan within their scopes (igris-agents);
-- actions pass a permission gate with approvals, a kill switch and an audit log (igris-policy);
-- tools and skills are what agents act with (igris-tools, igris-skills), inside a workspace
-- (igris-sandbox); devices pair, trust, exchange files and synchronise records with each other
-- (igris-device); speech is cut into commands, which the reflex rules decide (igris-voice);
-- memories are kept, linked and put into bounded bundles (igris-memory, igris-context); a timeline
-- keeps the last events (igris-telemetry) and a bus hands them on (igris-events). The panels of
-- the FIELD application act on all of these through one backend.
--
-- Which file models which part:
--   Device/Trust       crates/igris-device/src/trust.rs: TrustStore is a record of pins; verify_or_pin,
--                      is_trusted, revoke, export_json and import_json are functions of their names.
--   Device/Pairing     crates/igris-device/src/pairing.rs: OtpManager with issue, verify, sweep_expired.
--   Device/Transfer    crates/igris-device/src/transfer.rs: SessionManager, its sessions and calls;
--                      Transfer/Chunks holds FileProgress.
--   Device/Sync        crates/igris-device/src/sync.rs: SyncEngine::merge as a loop over the batch.
--   Device/Identity    crates/igris-device/src/identity.rs: Identity and its hashes.
--   Device/Message     crates/igris-device/src/message.rs: EcoMessage with sign and verify.
--   Device/Discovery   crates/igris-device/src/discovery.rs: the registry of Discovery and its scan;
--                      Device/Info is DeviceInfo of lib.rs.
--   Device/Server      crates/igris-device/src/server.rs: a function per handler, over Device/Transfer.
--   Device/Store       crates/igris-device/src/store.rs: DeviceStore over a file system.
--   Policy             crates/igris-policy/src/lib.rs: Policy::check and KillSwitch; Policy/Approvals is
--                      ApprovalStore, Policy/Audit is AuditLog.
--   Orchestrator       crates/igris-orchestrator/src/lib.rs: Mission; Orchestrator/Tasks is TaskNode,
--                      Orchestrator/Durable the JSON form and run_with_timeout.
--   Agents             crates/igris-agents/src/lib.rs: roles, scopes and plans; Agents/A2a is module a2a.
--   Reflex             crates/igris-reflex/src/lib.rs: types, escalation and normalisation; Reflex/Rules is
--                      classify, Reflex/Cache is DecisionCache, Reflex and decide.
--   Router             crates/igris-router/src/lib.rs: the static route; Router/Choice is ModelRouter,
--                      with the scores, the budget and the fallbacks of route_to; Router/Providers
--                      is the providers of with_defaults.
--   Tools              crates/igris-tools/src/lib.rs: Registry; Tools/Catalog is Catalog, Tools/Native the
--                      file system, terminal and browser tools.
--   Skills             crates/igris-skills/src/lib.rs: SkillManifest and SkillRegistry.
--   Sandbox            crates/igris-sandbox/src/lib.rs: Workspace; Sandbox/Vault is SecretsVault.
--   Voice              crates/igris-voice/src: Voice/Vad is vad.rs, Voice/Wake wake.rs and Voice/Pipeline
--                      pipeline.rs, which calls decide of Reflex; Voice/Tts is tts.rs,
--                      Voice/Capture capture.rs.
--   Memory             crates/igris-memory/src/lib.rs: records and the operations on their table;
--                      Memory/Graph is add_edge and neighbors, Memory/Rows the row that upsert
--                      writes and row_to_record, Memory/Search the search, the embedding and the
--                      ranking, Memory/Export the counts by kind and the JSON form.
--   Context            crates/igris-context/src/lib.rs: ContextBundle::compile.
--   Telemetry          crates/igris-telemetry/src/lib.rs: the timeline and the counters.
--   Events             crates/igris-events/src/lib.rs: Event and EventBus, as what it has handed out.
--   Field              apps/field-dioxus/src/backend.rs: the calls of FieldBackend; Field/Views is its
--                      start and what the panels read, Field/Ptt push-to-talk; Field/Calls names the
--                      calls.
--   Gateway            crates/igris-gateway/src/lib.rs: Gateway with its sessions and heartbeats.
--   Vision             crates/igris-vision/src/lib.rs: the gate before vision models.
--   Runtime            crates/igris-runtime/src/lib.rs: NodeHandle over a watch channel.
--   Cli                apps/cli/src/main.rs: the loop of mission_demo over Orchestrator; Cli/Commands the
--                      commands with their exit codes.
--   Base               what these share: lists, maps, results, texts, paths.
--
-- A method that changes its object returns the new object with its result. A HashMap is an
-- association list (Base/Maps); no operation depends on the order of its entries. An
-- Arc<AtomicBool> is an address into a store of flags, so that clones share it. Clocks, drawn ids,
-- tokens and random numbers are arguments. Instants and durations are nanoseconds, except a
-- record's timestamp, which counts from the least i64, and an approval's times, which count in the
-- unit of their clock.
--
-- Parameters for code outside the repository or with no stated result: serde_json, SHA-256, HMAC,
-- the file system, the shell, the network, the UTF-8 bytes of a text where they are hashed, the
-- uuid package's printing, chrono's, SQLite's matching (FTS5, LIKE), the broadcast and watch
-- channels, tokio's timer, the processes of the operating system, cpal's microphones, the
-- platform's DefaultHasher, the Unicode table of to_lowercase, f32 and f64.
--
-- Bounds: counters of type u32 and u64 wrap at 2^32 and 2^64 where the code adds to them, but for
-- the attempts of a pairing code, which stay below three; sizes of collections are taken not to
-- reach usize's limit. Three definitions run on fuel: the printing of decimals in Base/Text, where
-- the number itself plus one exceeds the count of its digits, the walk over the edges in
-- Memory/Graph, on twice their count and two more, and the loop of Cli over a mission, on one
-- round more than there are tasks to do; the last two are enough by a theorem.
--
-- What a tool or a handler changes outside the program is a state that its run threads through.
--
-- Not modelled: the tables' SQL but for what their statements choose, with the errors of the
-- connection and the comparison of instants as texts, TLS, the routing of the device server and
-- the probes of discovery, which are I/O; of the FIELD application, the user interface.
pub mod Base
pub mod Device
pub mod Policy
pub mod Orchestrator
pub mod Agents
pub mod Reflex
pub mod Router
pub mod Tools
pub mod Skills
pub mod Sandbox
pub mod Voice
pub mod Memory
pub mod Context
pub mod Telemetry
pub mod Cli
pub mod Events
pub mod Field
pub mod Gateway
pub mod Vision
pub mod Runtime
