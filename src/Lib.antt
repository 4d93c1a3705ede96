-- ===== src/Lib.antt =====
-- The orchestrator of Minecraft bots (orchestrator/internal). A frame of the engine runs a compiled
-- plan of systems on an entity-component world: the systems of a wave read the tables and put
-- commands into buffers of their own; the executor stages the commands of a wave, marks the
-- archetypes that it may have changed as dirty, and a sync commits what is staged before a wave
-- queries a dirty archetype. A host process that drives the bots is reached over a socket, with
-- frames that a length precedes; Minecraft's own protocol has packets in frames of VarInts.
--
-- Base: tests, lists, big-endian words and bits on native numbers. A byte, an int32, a uint64 or a
-- float64 is its bit pattern, and where the source wraps the model takes a remainder.
-- HostTransport (hosttransport/frame.go): Encode is `encode`; Decoder.Push is `push`, its loop
-- `take_frames` with the number of bytes received as fuel, of which each round takes four at least.
-- Frame.Stream has the reads of HostSupervisor.serve as far as the decoder goes (`read_all`): what a
-- read hands out is handled before the next, and an error ends the reads.
-- Model (engine/model): Types, Mask and Components have the records of components.go and
-- utility_ai.go, a mask being the number of its uint64; FailedPlans has FailedPlanCache; Controller
-- has ControllerState with Equal, ValidateControllerState and DiffControllerState. A nil pointer
-- is `none`.
-- Core (engine/core): Outcome has what an operation ends in, a value, an error or a panic; Table has
-- bundles and tables (table.go); World has the world and createNow, destroyNow, migrateNow
-- (world.go) as explicit state passing, where what was done before an error stays done; Command has
-- commands, the shadow of a batch, buffers and Sync (command.go, sync.go). A map is a function into
-- Option or an association list, and capacity is left out.
-- Scheduler (engine/scheduler): Access has AccessSpec and systemsConflict, Builder has AddPhase and
-- AddSystem, Degrees, Phases, Waves and Compiler have Compile with sortdPhase and compilePhase,
-- Executor has RunFrame and runWave. A map that is walked is a list in the order of insertion. The
-- loops over waves and phases have the number of systems or phases as fuel: a round of either takes
-- one at least. A system is a function of the world and its buffer, and the systems of a wave run
-- one after another.
-- Wire (mc_protocol/wire): VarInt has ReadVarInt and WriteVarInt, with five rounds of fuel, which is
-- the number of groups of seven bits in 32; Packet has WritePacket and ReadPacket. compress/zlib is
-- a parameter, a record of its two operations, and what is asked of it is that it is lossless.
-- Payload has the fields of a packet's body (payload.go). ChunkDecode (mc_protocol/chunk/decode.go)
-- has DecodeColumn; the sections to read are counted down from the height of the dimension.
-- Model.Chunks (engine/model/chunks.go) has packed palettes in three representations, sections and
-- columns, where a read out of range, a panic of the source, is `none`; Model.WorldViews, Entities and
-- Reality (resources.go) have what is kept for each bot, as functions of its profile; TickContext has
-- the snapshot of a tick (tick_context.go), a fixed array being a list of its length.
-- HostTransport.Messages has the messages of proto/orchestrator/v1/host.proto as their getters show
-- them, Observation and its Events what observation.go makes of them; the conversion to a float32 is
-- a parameter. Network (engine/network) has the events, and one mailbox for the inbox and the outbox:
-- a call holds the mutex, so that a schedule is a sequence of calls. Systems
-- (engine/system/systems.go) has the network apply system: Observations what an event does to a row
-- of a table, Terrain what it does to the worlds, and canStandAt and pickDestination, whose random
-- numbers are a parameter; Feedback has what an event does to entities and feedback, and Apply the
-- run over the events that were drained. A float64 of an int32 is computed on bit patterns.
-- Slices are values here: where the source shares the words of a section between two copies of a
-- column, the model has the copy that is stored.
-- Examples: tests and the theorems at concrete inputs.
--
-- Not modelled: the bots (TypeScript), generated code and registries, processes, sockets, logging and
-- configuration, which are input and output; the goroutines of a wave and the worker pool; the
-- utility AI and the systems that drive it; the NBT values of payloads, which a third-party library
-- reads; GetNearby, which compares floating point, and the views of perception; the intents of the
-- outbox.
pub mod Base
pub mod HostTransport
pub mod Model
pub mod Core
pub mod Scheduler
pub mod Wire
pub mod ChunkDecode
pub mod Network
pub mod Systems
mod Examples
