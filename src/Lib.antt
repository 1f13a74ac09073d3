-- ===== src/Lib.antt =====
-- A model of the generator client's own core: the conversion of a fetched EVM block into documents,
-- the handler that writes and signs them, the concurrent block processor with its reorg handling,
-- the queue and the cycles of the pruner, the rollback of orphaned blocks, and the pure parts of
-- the snapshots, with theorems about them.
--
-- The parts and how they interact. The processor (Processor) fetches and checks blocks in order,
-- sends them to a store pool and applies the completions in order. When a parent hash disagrees
-- with the block below, it waits for a confirmation, walks the new chain back to the common
-- ancestor and has the roller (Roller) delete the orphans above it; then it runs again from there.
-- A worker of the processor fetches a block with its receipts and converts it (Evm) into groups of
-- documents with a link stamper, in the form of Chains. A store task hands them to the block
-- handler (Handler): it stamps the links, creates the documents group by group in batches, collects
-- their CIDs and writes a signature over them; for a block that a peer stored, it finds the
-- documents and signs those. Each stored block is tracked in the pruner's queue (Queue, with the
-- document IDs of Uuid), from which the pruner (Prune) takes the oldest blocks to purge their
-- documents. Snapshots (Snapshot) cut the stored blocks into aligned ranges and sign a Merkle root.
--
-- Files and code:
--   Chains      pkg/chains/chains.go, the data that a converter passes to the block handler
--   Evm         pkg/chains/evm/types.go; Evm/Collections: collections.go; Evm/Documents,
--               Evm/Convert and Evm/Numbers: converter.go; Evm/Links: link_stamper.go;
--               Evm/Receipts: fetcher.go
--   Handler     pkg/defra/block_handler.go: Handler/Store is Store with Groups, Batches and
--               Signing below it, Handler/Existing is SignExisting and its queries,
--               Handler/Writes the effects on the outside world
--   Uuid        pkg/pruner/indexer_queue.go, extractUUID, parseUUIDHex, formatUUID, RestoreDocID
--   Queue       pkg/pruner/indexer_queue.go, the methods of IndexerQueue; Queue/File: Save and
--               LoadFromFile; Queue/Backlog: the queue as a finite multiset of blocks
--   Prune       pkg/pruner/pruner.go, runPrune and what it calls
--   Processor/Run, Check, Apply, Episode, Collector
--               pkg/indexer/concurrent_processor.go, collectResults and what it calls; one record
--               Run holds the fields that pendingMu guards
--   Processor/WalkBack   the same file, resolveForkPoint
--   Processor/Retry      the same file, fetchBlockWithRetry, fetchHeaderByHashWithRetry,
--               storeWithRetry, runStoreTask, detectStaleOrphan
--   Processor/Rollbacks  the same file, ProcessBlocks, resolveSeed
--   Processor/Fetch, Dispatch   the same file, fetchAndConvertBlock and dispatchLoop
--   Config      config/config.go, applyDefaults and validateConfig
--   Indexer     pkg/indexer/indexer.go, resolveStartHeight
--   Roller      pkg/defra/reorg_roller.go
--   Snapshot    pkg/snapshot/snapshot.go, nextSnapshotRange, and pkg/snapshot/signing.go,
--               ComputeSnapshotMerkleRoot; Snapshot/Cycle: checkAndSnapshot, and
--               enforceSnapshotLimit of pkg/snapshot/purge.go
--   Prelude, Dict   shared tests, lists, results, and maps with heights or texts as keys
--
-- How the code is modelled. Heights, counters and limits are natural numbers, so a negative height
-- or limit has no counterpart, except in the settings, which are integers cut to 64 bits; where the
-- source names the height below the first one, the model keeps that height plus one
-- (`last_checked_end`, the start of `resolve_fork_point`). A hash is a text and "" is an unknown
-- one; a document ID is a list of bytes. A Go map is the list of its pairs, in an order that stands
-- for the order of iteration. An error's text is a record of the flags that pkg/errors/utils.go
-- computes from it. What the chain, DefraDB, the file system and the context answer is an argument:
-- WalkEnv, GapQuery, EpisodeEnv, RoundEnv, Attempt, Defra, StoreEnv, SaveFaults, and for the block
-- handler an Env of operations over a state of the outside world. A World is that state with the
-- CID collector beside it; the handler's calls are actions on it that may fail, a wait may change
-- the outside world, and wrapping an error keeps its flags. The fetcher's client and
-- strconv.ParseInt are parameters. The collector's select is a list of events, so that every
-- interleaving of results, completions and cancellation is a list; an event of a pop says what the
-- environment answers during it. sort.Slice, sort.Strings, encoding/gob and SHA-256 are parameters;
-- of sort.Slice the drains assume that it returns a permutation in ascending order of block
-- numbers.
--
-- Loops. The walk-back recurses on the height, and the outer loop of ProcessBlocks on the list of
-- rounds so far; the retries of a fetch and the re-fetches of a wait recurse on the attempts so far
-- and say when they are still trying. The pass over ready completions has fuel for one round more
-- than there are holes and parked completions, and each round removes one of them. The rounds of
-- the Merkle root have as much fuel as there are roots, and each round removes at least one. The
-- batches of create_batches have as much fuel as there are documents, since a positive batch size
-- takes at least one; the chunks of a query by heights have the number of heights; the wait for
-- CIDs and the retries of a batch recurse on the attempts that are left. A rollback recurses on the
-- number of heights of its range.
--
-- Not modelled: goroutines, channels and the lifecycle of the workers, metrics and logs; delays
-- other than the dispatcher's; the default signer and the default
-- query of CIDs, which stand behind the handler's Env; the JSON-RPC client of
-- pkg/chains/evm/ethereum_client.go; the reading of the settings; servers, keys, schema and peers,
-- which are glue around DefraDB, libp2p and HTTP; the contents of snapshot files.
pub mod Prelude
pub mod Uuid
pub mod Dict
pub mod Chains
pub mod Queue
pub mod Processor
pub mod Roller
pub mod Prune
pub mod Snapshot
pub mod Handler
pub mod Evm
pub mod Config
pub mod Indexer
