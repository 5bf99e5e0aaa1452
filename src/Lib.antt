-- ===== src/Lib.antt =====
-- Verification of the Officer endpoint agent for Windows.
--
-- The agent collects endpoint events, keeps them in a durable spool until a server has taken them,
-- and carries out a closed set of response commands. This library models the parts with logic of
-- their own; paths are from the repository's root.
--
-- Prelude: Boolean tests, conditionals, lists, tables, byte strings, text-mode files, decimal
--   texts, integers and results.
--
-- Delivery.Spool: src/delivery/spool.cpp and include/panopticon/officer/delivery/spool.hpp.
--   Format is the byte format of a record (crc32, write_u32, the frame that append writes), Disk the
--   spool directory with the file calls the code makes, State the fields of SegmentSpool and its
--   constructor, Reader the loop of read_next_record_locked, Operations the public operations
--   (has_ready, peek_ready, report_outcome, append, recover) and evict_for_quota_locked. A segment is
--   its index and its bytes; what the file system answers in one call is a record Env. The read loop
--   and the quota loop run on fuel: the first has a round for each byte and segment left, the second
--   one round more than there are files; Reader.Termination and Operations.Eviction say when that is
--   enough. The abstract view of a spool is its queue of undelivered records (Reader.Pending,
--   Operations.Eviction.Idle, Operations.Delivery.Holds).
-- Delivery.Journal: src/delivery/journal.cpp and include/panopticon/officer/delivery/journal.hpp.
--   Db is the tables as lists of rows, with the statements and the triggers that change them; the
--   columns that are sealed hold the sealed text. Transact is the transaction around a call and the
--   admission of growth; a statement that fails has the effect of a commit that fails. Append,
--   Checkpoint, Identifiers, Command, Read and Acknowledge are the calls, each a function of what
--   the operating system answers during it (CallEnv) and of the functions of other libraries
--   (Platform). Evolves relates the database before a call and after it (for each call in Inserted,
--   Fence, Calls, Commands, Settlement and Generation), History any sequence of calls. A call runs
--   under the journal's mutex, so that a sequence of calls is what threads do.
-- Delivery.Uploader: src/delivery/uploader.cpp. deliver_one (DeliverOne) is one delivery, with the
--   HTTP client as a parameter; turn (Worker) is one turn of the worker, whose loop makes 64
--   deliveries at most as the source does. Another thread's calls of the journal between the peek
--   and the receipt of one delivery are not modelled here.
-- Core.ProcessInstance: src/core/process_instance.cpp. Collectors.ProcessImageCache:
--   src/collectors/process_image_cache.cpp.
-- Response: Identity is src/response/identity.cpp, ReplayLedger src/response/replay_ledger.cpp;
--   Timestamp, Command and Gate are src/response/command.cpp with command.hpp. Command.Parser reads
--   commands from the JSON values of Command.Json, and Command.Accepted says what an accepted command
--   satisfies. The gate takes the clock's answer as an argument and calls the ledger; Gate.Admissible
--   is what the gate asks of a command, and Gate.History runs gate and ledger through calls and
--   restarts. The files of identity and ledger are opened in text mode (Prelude.TextMode), which on
--   Windows writes a newline as two bytes and ends a file at Ctrl-Z.
-- Pipeline.RawHandoff: src/pipeline/raw_handoff.cpp, one function for each section under the mutex;
--   an interleaving of threads is a sequence of these sections. A flag says that the worker sleeps on
--   the condition variable; a notification clears it. Event and its charge are parameters.
-- Health.SourceGaps: src/health/source_supervisor.cpp. A report is a value in place of its JSON, and
--   the length of its text a parameter. Health.Coverage: set of src/health/coverage.cpp.
--
-- Not modelled: calls of Windows, HTTP, SQLite and the file system beyond their answers; segment
-- file names (indices stand for them); the access list of the identity file; the JSON library,
-- DPAPI and SHA-256, parameters of the code that calls them; the facts of a process record
-- (src/core/process_graph.cpp), a parameter of the journal; opening the journal, its import of legacy
-- segments, its statistics and the traversal of process ancestry; rows of the journal's tables with
-- values that its code does not write; serialize_command_result; the size of an event
-- (raw_event_charge). The other collectors, the state inventories, the normalizer, forensics and deployment
-- are other parts of the program without a model here.
pub mod Collectors
pub mod Core
pub mod Delivery
pub mod Health
pub mod Pipeline
pub mod Prelude
pub mod Response
