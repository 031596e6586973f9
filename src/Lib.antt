-- ===== src/Lib.antt =====
-- NeuChain: the deterministic concurrency control of the block server, and what it acts on.
--
-- A block server orders transactions into epochs. All block servers get the same transactions with
-- the same ids for an epoch, run their chaincodes against the state before the epoch, collect what
-- each reads and writes, and then commit those whose dependencies allow it (the Aria protocol), so
-- that all servers reach the same state without talking to each other again.
--
-- The parts, and the files that model them (paths from the repository's root):
--   RwSet              read-write sets (include/proto/kv_rwset.proto)
--   ReserveTable       MockReserveTable and ReserveTableProvider
--                      (src/block_server/reserve_table): for each key the smallest id of a reader
--                      and of a writer. reserve_rw_set is reserveRWSet, dependency_analysis is
--                      dependencyAnalysis. ReserveTable/Exchange is the compare-and-exchange loop
--                      on one register as a step relation of any number of threads
--   Decision           the branch of commitList that the dependencies select
--   Transaction        MockTransaction (src/block_server/transaction), and in Transaction/Wire the
--                      bytes that it is sent as
--   Storage            the interface DBStorage, and LevelDBStorage in Storage/LevelDb
--   Database           DatabaseImpl (src/block_server/database/impl/database_impl.cpp): buffered
--                      sets, written to the storage at the commit
--   Orm                what a chaincode uses of the storage (src/block_server/database/orm):
--                      CCORMHelper, its inserts, its queries and their iterator
--   Chaincode          the interface of a chaincode for the executor
--   SmallBank          the SmallBank chaincode (src/block_server/worker/chaincode), an instance of
--                      that interface, and what its operations do to the balances
--   Ycsb               the YCSB chaincode, a second instance of it. protobuf's parsers and the
--                      order of a std::unordered_map are a parameter (Messages)
--   Random             the random numbers that SmallBank draws (include/common/random.h)
--   Int32              int as a bit pattern, with std::to_string and strtol
--   Executor           executeList and commitList (src/block_server/worker), and the two phases
--                      of an epoch in run_epoch
--   Coordinator        the queue of the coordinator and the workloads that it cuts an epoch into
--                      (src/block_server/coordinator); Coordinator/Phases is the protocol of
--                      AriaCoordinator::run and AriaWorker::run as a step relation,
--                      with the waits of the coordinator for transactions and for consensus
--   QueryExecutor      executeList of TransactionQueryExecutor, for transactions that only read
--                      (src/block_server/worker)
--   Aggregation        the executor for what other servers of a cluster have run
--   Aggregation/Broadcaster  how the servers of a cluster exchange what they have run
--                      (src/block_server/coordinator/aggregation_broadcaster.cpp)
--   Aggregation/Coordinator  how a server parts an epoch for the cluster
--                      (src/block_server/coordinator/aggregation_coordinator.cpp)
--   Manager            the end of an epoch in TransactionManagerImpl (src/block_server/transaction)
--   HashMap            the map in parts of include/common/hash_map.h, which all of the above use
--   Consensus          ConsensusControlBlock, of include/block_server/comm/client_proxy: which servers
--                      have confirmed an epoch, and which are marked as malicious
--   ClientProxy        how the servers pass on transactions, with the checks on what others send,
--                      src/block_server/comm/client_proxy/client_proxy.cpp; where the batches
--                      come from is ClientProxy/Collector (user_collector.cpp)
--   Blocks             the blocks of the committed transactions: bodies, headers, files and signatures,
--                      src/block_server/database/impl/block_generator_impl.cpp and the files that
--                      it uses
--   EpochBuffer        the buffers between the proxies and the transaction manager, epoch by epoch,
--                      of include/block_server/comm/client_proxy
--   MvccHashMap        the map with versions of include/common/mvcc_hash_map.h; the reserve table
--                      over it is ReserveTable/Mvcc
--   CyclicBarrier      the barrier of src/common/cyclic_barrier.cpp
--   Serial             the specification: what it is to run transactions one after another
--   Prelude            helpers on lists, tests and keys
--   Tests              concrete inputs
--
-- A hash map is a function from keys, with the value that the code gets for a key that it has not
-- seen: 0 for a register, an empty buffer entry, no partition. A failed CHECK, and a null pointer
-- that is followed, stop the process: the operation gives no result (none). All other
-- loops run over lists, by recursion on them. Ids are natural numbers: no code of
-- these parts computes with them, so none can wrap.
--
-- The streams and messages of protobuf, and SHA256, are a parameter (Transaction.Wire.Coding): what
-- is written is read back from in front of any bytes, and a hash has 32 bytes.
--
-- LevelDB is a parameter (Storage.LevelDb.LevelDb): a partition is a map from keys to values, and
-- a put and a delete change the value of their key only. Opening a partition may
-- fail in the model, as in the code, where a CHECK of getTable then stops the process; the law is
-- that the partitions open. A failed put or delete is checked in debug builds only, and both are
-- taken to succeed.
--
-- The parser of a payload, generated by protobuf, is a parameter of SmallBank.Invoke
-- and of Ycsb.Invoke.
--
-- Not modelled: the sockets, raft, the threads that only pass messages on, the configuration, the
-- queues, caches and trees of hashes (taken from other projects), the users that make load, and the
-- clocks, which are arguments. protobuf, the hash functions and the signatures are parameters, with
-- what the code relies on as laws. Interleaving is modelled for a register of the reserve table, for
-- the phases of an epoch and for the buffers between the proxies and the transaction manager;
-- messages of the consensus come one after the other, as raft orders them; run_epoch runs one
-- worker. The loops of the coordinator on its queue have fuel, as many rounds as there are
-- transactions, and their theorem says that it is enough; the loop that closes epochs has the
-- difference of the two epochs as its rounds, and that of a marked server those up to MAX_EPOCH.
pub mod Prelude
pub mod Int32
pub mod Ycsb
pub mod Random
pub mod RwSet
pub mod ReserveTable
pub mod Decision
pub mod Serial
pub mod Transaction
pub mod Storage
pub mod Database
pub mod Orm
pub mod Chaincode
pub mod SmallBank
pub mod Executor
pub mod QueryExecutor
pub mod Aggregation
pub mod Coordinator
pub mod Manager
pub mod HashMap
pub mod MvccHashMap
pub mod CyclicBarrier
pub mod Consensus
pub mod ClientProxy
pub mod Blocks
pub mod EpochBuffer
mod Tests
