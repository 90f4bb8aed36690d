-- ===== src/Lib.antt =====
-- RappaMaster: the master node of a layer that has models synthesise data on remote nodes. A task is
-- announced on a chain, scheduled over the nodes slot by slot, and tracked until enough slots are
-- final; the nodes vote on each other's slots, and epochs record on the chain what happened.
--
-- The parts, and how they interact. A task goes from the oracle to the tracker, which sends it as
-- unprocessed to the scheduler; the scheduler asks the monitor for shares and makes a schedule of
-- slots. A slot that a node commits reaches the epoch manager, which checks the node's certificate,
-- hands the slot to the tracker and puts it into the record of the epoch. With each epoch a
-- heartbeat asks the nodes for votes; the vote handler sends the slots that pass back to the epoch
-- manager, which tells the tracker; the tracker reports a slot as finalized or as expired, and a
-- finalized slot is stamped, counted, and put on the chain. The collector of a task keeps its final
-- slots for download, and Merkle trees prove that the commitment of a slot is among those of its task.
-- The oracle keeps what came on the chain in a database, and answers queries from it; after a crash the
-- master starts again from there.
--
-- The files:
--   Base/      what all share: Boolean tests, lists with native lengths, signed integers and Go's
--              int32 with its wrap-around, maps as association lists, decimal and hexadecimal texts.
--   Paradigm/  paradigm/*.go, the data that the parts exchange: Model (mod.go, model.go), Commit
--              (commit.go, cert.go), Slot (slot.go, schedule.go), Track (track.go), Vote (vote.go),
--              Record (the EpochRecord of oracle.go).
--   Handler    handler/voteHandler.go. process is Process, new_vote_handler is NewVoteHandler.
--   Schedule   Schedule/scheduler.go. generate_synth_schedule is generateSynthSchedule.
--   Monitor    Monitor/monitor.go, the method advice; Status has what is kept of each node
--              (paradigm/monitor.go) and the messages that change it, Log the changes node by node.
--   Pki        PKI/manager.go and paradigm/ca.go. verify_node_ca is VerifyNodeCA.
--   Tracker    Tracker/tracker.go and paradigm/expire.go, with a function for each method; World has
--              the calls in any order.
--   Chain      ChainUpper/chainupper.go. up_chain is UpChain. Contract is the contract of
--              ChainUpper/contract/storeData/StoreData.sol, Store how ChainUpper/service/worker.go puts
--              a transaction into it (StoreParams of paradigm/transaction.go) and what query_worker.go
--              reads of it, Words the words of 32 bytes of utils/func.go; Keys, Reading and Collision
--              have the proofs.
--   Coordinator  Coordinator/scheduleImpl.go. send_schedule is sendSchedule, with what comes of the
--              calls as a parameter; Answers has what becomes of the slots, Restart the two ends.
--              Heartbeat has sendHeartbeat of heartbeatImpl.go and CommitSlot of commitImpl.go, with the
--              reports of paradigm/monitor.go; Reports and Beats have the proofs.
--   Eliminator Tracker/Eliminators.go and paradigm/expire.go: a turn is one round of the loop of
--              Start. Which of two items of the same time is given out first is left to
--              container/heap; here it is the one that came first.
--   Epoch      Epoch/EpochManager.go. process_event is one turn of the loop in Start, update_epoch
--              is UpdateEpoch.
--   Collector  Collector/collector.go. process_slot_update is ProcessSlotUpdate, process_collect the
--              choice of slots in ProcessCollect. Gather has SlotRecover of Collector/recover.go with
--              its methods, and Decode of ErasureDecoder/decoder.go; Download has Collect of
--              Collector/instance.go over the responses in the order of their channel. Rows, Arrival,
--              Local and Waiting have the proofs about downloads.
--   Merkle     utils/merkle.go (BuildMerkleTree, GetMerkleProof) and
--              Validatable/merkle/MerkleTree.go (Build, GetProof).
--   Date       Date/DateRecord.go, the counters of one day.
--   Task       paradigm/task.go, with the collector that a task owns.
--   Database   Database/slotImpl.go, taskImpl.go and dataRecordImpl.go, over tables as parameters
--              (Table, DateTable): recover_collector is RecoverCollector.
--   Oracle     Oracle/persistedOracle.go: process_schedule, process_init_task and process_task_process
--              are the cases of Start for schedules and the transactions on tasks; EpochTx has the
--              record of an epoch, and DevEpoch of paradigm/oracle.go.
--   Query      Query/*.go, Oracle/persistedQuery.go, Validatable/Validatable.go and paradigm/query.go:
--              Request and Build make a query of a GET request (build_query_from_get_request is
--              BuildQueryFromGETRequest), Dispatch is a round of processDBQuery, and Response the channel
--              of a query. The methods GenerateResponse are in Evidence (tasks), EpochView (epochs),
--              Latest, Tasks (the list of tasks), Nodes (nodes and days) and Integrity (a slot among
--              those of its task). Summary, Rounds, Timeline, Certified, Refusal, EpochCounts, Shown
--              and Answered have the proofs.
--   Http       Network/HTTP/url.go: handle_get is HandleGET, handle_download is HandleDownload, init_task
--              the handler that creates a task (NewTask of paradigm/task.go). Delivery has the proof.
--   Recovery   Recovery/recovery.go, with the resets of Database/slotImpl.go and taskImpl.go and the
--              highest epoch of epochImpl.go. recover_from_data_base is RecoverFromDataBase.
--   Examples/  the theorems applied to concrete inputs, and tests.
-- Names are those of the source in snake case, and a component's proofs lie in the modules below it.
--
-- Conventions. A nil pointer, a missing key or an index out of range that panics in Go gives `none`.
-- A message on a channel is an item of a list of messages that the function returns, in order. Maps
-- are association lists, where Go leaves the order of a range open. A field of type int32 is an
-- integer, and arithmetic on it is followed by the wrap to 32 bits; counters of type int are not
-- wrapped. Structs that are shared by pointer lie on a heap in the tracker only. There the epoch that
-- the epoch manager later writes through the shared pointer of a commit slot is not written back.
--
-- Bounds and fuel. The binary search has one more unit of fuel than the list has items, and each
-- round takes at least one item away; the loop that builds a Merkle tree has one unit for each leaf,
-- and each round but the last makes the level shorter. The theorems about both show that this is
-- enough. The loop that pads the rows of a slot has one unit for each row up to that of the chunk
-- (pad_rows_enough in Collector/Rows). All other loops are structural.
--
-- Not modelled: input and output (gRPC, the HTTP server around its handlers, the SDK of the chain,
-- SQL), printing and logging, floats (speeds, which are only shown), and data races: each call is one
-- step. Third-party code is a parameter: the keys, decoding and signatures of certificates (the record
-- Crypto), SHA-256, go-ethereum's BytesToHash, the JSON of a task's parameters on the chain, and the
-- text of a slot's hash in the scheduler; the tables of the database are the records Table and
-- DateTable, whose laws say that a read gives what was written, and Bulk for changes of all rows; Verkle
-- trees; gin's query strings; the Reed-Solomon code of downloads, the signatures of the nodes over
-- their slots, and the parsing and joining of data frames and graphs. Generated code and the copy of
-- go-verkle are left out.
pub mod Base
pub mod Paradigm
pub mod Handler
pub mod Schedule
pub mod Monitor
pub mod Pki
pub mod Query
pub mod Tracker
pub mod Chain
pub mod Coordinator
pub mod Eliminator
pub mod Epoch
pub mod Collector
pub mod Merkle
pub mod Date
pub mod Task
pub mod Database
pub mod Oracle
pub mod Recovery
pub mod Http
pub mod Examples
