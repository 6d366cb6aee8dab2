-- ===== src/Lib.antt =====
-- Models of the PDF platform's core (core/, Rust) and theorems about them.
--
-- Program parts and the files that model them, by paths from the repository's root:
--   Common            shared lists, maps, key queues, results and bytes; models no file.
--   Protocol/Handles  core/protocol/src/handles.rs: tile constants, TileSlotDesc.
--   Protocol/Transport  core/protocol/src/transport.rs: encode_frame, decode_length,
--                     FrameDecoder::try_next, read_frame_into. The reader is the list of results of
--                     its successive `read` calls.
--   Protocol/Commands  core/protocol/src/commands.rs: the commands, encode_command, decode_command
--                     and the legacy request; Protocol/Wire its lines, fields and escapes over
--                     bytes, with UTF-8 as str::from_utf8 checks it. Floats are a parameter.
--   Render/Cache      core/render-pipeline/src/cache.rs: TileCache, its HashMap as an association
--                     list and its VecDeque as a list, front first.
--   Render/Pool       core/render-pipeline/src/shmem.rs: the slots of TilePool.
--   Render/Scheduler  core/render-pipeline/src/scheduler.rs: Viewport::decompose, its prefetch ring
--                     and RenderScheduler.
--   Memory            core/coordinator/src/memory.rs: MemoryGovernor's ledger and ThumbnailCache.
--   Text              core/text-extract/src/lib.rs: TextExtractionService.
--   Text/Compare      core/text-extract/src/compare.rs: diff_lines and its parts.
--   Document/Overlay  core/pdf-model/src/overlay.rs: CowOverlay.
--   Document/Command  core/pdf-model/src/command.rs: the commands and CommandGroup.
--   Document/Journal  core/pdf-model/src/journal.rs: UndoJournal; Document/Journal/Sidecar its
--                     deserialize_applied.
--   Document/Incremental  core/pdf-write/src/lib.rs: IncrementalWriter::write_incremental, its output
--                     a list of bytes.
--   Document/Session  core/coordinator/src/document.rs: apply_command_group, undo, redo,
--                     apply_recovered_groups and close, over the overlay, the journal, the text
--                     service and the sidecar, a list of bytes, and replay_sidecar. What persist_journal
--                     writes to the sidecar is a parameter that leaves any bytes.
--   Jobs/Graph        core/jobs/src/lib.rs: JobSpec and JobGraph::new.
--   Jobs/Scheduler    core/jobs/src/lib.rs: the handlers of scheduler_loop and its start from a
--                     snapshot, finish_job, submit and cancel; Jobs/Event its events. A send on a
--                     channel appends to a list, and each handler runs as a whole.
--   Jobs/Persistence  core/jobs/src/persistence.rs: the snapshot codec, the log of frames.
--   Plugins           core/plugin-host/src: grants, the plugin manager and its circuit breaker.
--
-- State is passed explicitly: a method is a function from the state to the new state and its result,
-- and `Result<T, E>` is the type Result of Common. Numbers are unbounded naturals; where the source
-- adds in `u32`, `u64` or `usize` the wrap-around of a release build is written out, and where it
-- uses checked or saturating arithmetic so does the model. HashMap iteration order matters nowhere
-- that a theorem speaks of.
--
-- Fuel: a loop that pops a queue runs on the queue's length (TileCache::insert, the scheduler's
-- dispatch) or one more (ThumbnailCache::insert), JobGraph::new's loop on the number of jobs, each
-- of which is queued at most once, load_latest's on the length of the file, since a frame has
-- bytes, finish_job on the number of pending jobs, of which a nested call finds one less, and the
-- subsections of a cross-reference section on the number of entries, of which each takes one or more.
--
-- Not modelled: operating-system sockets, files and processes, PDFium, wasmtime and other external
-- libraries, floating-point geometry, worker threads, and mutexes (a call sees and leaves one state);
-- the text that persist_journal prints, serialize_applied included, which shows fields of commands
-- that nothing else reads (the theorems on edits hold whatever it leaves in the sidecar); of the job
-- scheduler also the roll-back of a submission after its loop has ended.
pub mod Common
pub mod Protocol
pub mod Render
pub mod Memory
pub mod Text
pub mod Document
pub mod Plugins
pub mod Jobs
