-- ===== src/Lib.antt =====
-- Mahiron, a server that shares television tuners: its parts with a logic of their own, and what
-- holds of them.
--
-- The program takes packets from a tuner, checks that they have the format it expects (packet),
-- puts sections together from them and reads the tables in them (ts), makes of the stream one for
-- each service that is asked for, with a table of programs rewritten for it, counts the packets
-- that were lost (ts, internal/stream/demux), hands them to subscribers (internal/stream), follows
-- the tables that are broadcast (internal/isdb), and runs the jobs that gather programs and logos
-- (internal/job). A stream acquires a tuner from the tuner manager (internal/tuner), which may
-- take it over from a user of a lower priority. A subscriber's writer takes its packets from a
-- queue that the demultiplexer fills. A gathering job watches the schedule trackers to decide when
-- a service is done.
--
-- Files:
-- - Prelude: names of the library, Boolean tests (Tests), lists over ℕ (Lists), maps as functions
--   (Maps), Go's signed integers where only their order matters (Int), lists of keys (Keys), maps
--   that are iterated over, as lists of entries (Dict), and the laws of the exclusive or (Xor).
-- - Fanout/Queue: `packetQueue` of internal/stream/fanout/subscription.go; `push`, `take` and
--   `close` are `push`, `take_packets` and `close`, their loops `make_room` and `take_loop`. Below
--   it the packets that a ring holds (Contents), the valid queues and the parts of a push (Room),
--   and the two operations against a list of packets (Push, Take).
-- - Isdb: section headers and the classifiers of internal/isdb/isdb.go; Isdb/Tables its
--   `TableTracker`, with when it is ready (Ready) and after which sections (Complete).
-- - Isdb/ReadyGroup: the groups of internal/isdb/schedule.go. `observeReady` is `observe_ready` of
--   Isdb/Schedule around `observe_group`, whose steps are `change_last`, `change_version` and
--   `mark`. Below it the marks bit by bit (Marks), a section that comes again (Again), the bases
--   (Bases), and the missing sections (Missing).
-- - Isdb/Schedule: `ScheduleTracker` of the same file. Below it the same section again (Progress),
--   and that what counts as arrived is stored (Stored, Step, Coverage).
-- - Job: the jobs, the definitions and the manager's state (internal/job/job.go, manager.go);
--   Job/Queue which job is next, Job/Run starting and ending a job, Job/Api the calls from outside,
--   Job/Config `NewManager`, Job/Shutdown the locked part of `Shutdown`. Job/Pick is about the
--   choice, Job/Load about the counters and limits, Job/Keys about the lists and the keys that are
--   taken, Job/Reach about the states that can be reached and about a dispatch (Started, Maximal).
-- - Tuner: tuners, their users and reservations (internal/tuner/tuner.go, status.go); Tuner/Pool
--   `Manager` of internal/tuner/manager.go with `tryAcquireLocked` and `CheckAvailable`: what
--   they find (Candidates, Grab) and that they agree (Check); Tuner/Devices the calls of a
--   `managedDevice`, with who holds a tuner (Owners, Reach).
-- - Ts: the header of a packet and its adaptation field (ts/packet.go); Ts/Sections the CRC and
--   `SectionAssembler` of ts/section.go, with what it returns in any case (Whole), for a well-formed
--   packet (Joined), and for the packets of its own PID (Own).
-- - Ts/Psi: section headers, descriptors, the tables of programs and of a program's streams
--   (ts/psi.go, ts/pat.go, ts/pmt.go): reading them, and `BuildPATSection`; the CRC's laws (Crc) and
--   the table that is built and read back (Built). Ts/TableSet is `SectionTableSet`.
-- - Ts/Packetize: `packetizeSection` of ts/demux.go; below it what its packets carry (Bodies), that
--   the loop ends (Ends), each packet at the assembler (Steps), all of them (Reassembled).
-- - Ts/Reader: `PacketReader` of ts/packet.go; below it that a search loses no bytes (Kept, Looks,
--   Found), that each call returns (Returned), and a stream of plain packets (Synced, Plain,
--   Aligned).
-- - Ts/Detector: `Detector` of ts/detector.go, with the runs of sync bytes that it finds (Runs), and
--   what it says (Verdict), and the format check of a transport stream (Checked).
-- - Ts/Demux: `Demuxer` and `ServiceView` of ts/demux.go; Observe is `Demuxer.Observe` with its
--   tables. Below it the invariant of the state (Indexed, Accept, Reach), what a view emits (Views,
--   Emitted) and its counter (Counters).
-- - Demux: `continuityMonitor` of internal/stream/demux/demuxer.go: what it reports (Monitor), two
--   packets in a row (Gaps), and the stream of a view (Tables).
-- - Event: `Hub` of internal/event/hub.go; a publication (Sends), the states that the hub can reach
--   (Reach), its log (Log), and what a subscriber receives (Delivery).
-- - Packets: `checkReader` of packet/packet.go over any reader and detectors (`Source`, `Detector`);
--   Packets/Checked that the checked stream is the stream, and that the check ends.
-- - Tests: runs, and every theorem at an input where its conditions hold.
--
-- Conventions. A method takes the state and returns the state. Maps are functions, where a missing
-- key reads as the zero value or as `none`; one that is iterated over is a list of entries, in one
-- of the orders Go may choose. Bit masks are functions of the segment and the bit. A job is shared
-- by several lists and by the goroutine that runs it: jobs are a store by id. A lock makes each
-- section of the code that holds it one step. Times are natural numbers. A generation of the
-- demultiplexer, a 64-bit counter of tables, does not wrap. A read out of range is `none`, or
-- excluded by a condition that is proved.
--
-- Fuel. The loops of `packetQueue` run on one more than the number of packets, and take one each
-- round; those of `TableTracker` on 256, the values of a section number; `dispatch` on the length
-- of the queue, which each round shortens; `trimHistory` on the length of the history, likewise;
-- the loop of the shutdown on the places of the array that it ranges over; the loops over tuners
-- on the number of tuners; those of `SectionAssembler` on the number of bytes, of which each round
-- takes 3; those of the tables and of `packetizeSection` on the section's length, or one more, of
-- which each round takes some bytes; the check of a stream's format on one more than `probeLimit`,
-- where each round reads a byte or ends; `fill` on the bytes that it waits for, likewise; the
-- search of `PacketReader` on what is left to read. The rings' and the trackers' theorems state
-- that a result comes.
--
-- Left out: what third-party code does (the scheduler of jobs, contexts, timers, UUIDs: a fresh id
-- is an argument, and a timer that fires a step), logging, metrics and the calls that publish
-- events, the texts of `Diagnosis`, and the parts of the program that are not named above.
pub mod Prelude
pub mod Fanout
pub mod Isdb
pub mod Job
pub mod Tuner
pub mod Packets
pub mod Demux
pub mod Event
pub mod Ts
pub mod Tests
