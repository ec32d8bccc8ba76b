-- ===== src/Lib.antt =====
-- Verification of pp2, a distributed block device with a journaled file system on top.
--
-- The program. Servers replicate a log by Raft (raft/) and apply it to a key-value map with leases
-- on keys (kvraft/). A client sees the map as locked blocks (bio/), writes them in transactions
-- through a journal (jrnl/), allocates blocks by a bitmap (balloc/), keeps inodes (inode/) and
-- files (fs/), and is driven by a command line (main.go). netdrv/ finds the servers, labgob/ wraps
-- the encoder.
--
-- What is modelled, and where. A function of the source keeps its name in snake_case.
--   Prelude      the shared names: tests and lists over native numbers, signed integers, and
--                faults.
--   Raft         raft/raft.go and raft/fns.go. `State` has the types; `Log` and `Nils` the log as
--                a slice of pointers; `Persist` and `Restart` the persister, `readPersist` and
--                `Make`; `Vote` `RequestVote`; `Append` `AppendEntries`; `Apply`
--                `applyOutstanding`; `Snapshot` the installation of snapshots; `Start` `Start`
--                and `GetState`; `Election` candidacy and the count of votes; `Heartbeat`
--                `doHeartbeat` and the routines for the replies; `Commit` `rvwCommits`; `Step`
--                all of them as steps of one server, with a restart as one more step.
--   Text         what the program uses of strings, strconv and fmt: `split`, printing and reading
--                of numbers.
--   Kvraft       `State` has the types of kvraft/common.go and the maps of `KVServer`; `Lock`
--                models `checkHoldLock` and `commitOp`; `Command` what `manageApplyCh` does with
--                a command; `Snapshots` kvraft/snapshot.go and one message of `manageApplyCh`;
--                `Reply` what `Request` answers to a message, and `Waiting` the request from its
--                start to its answer; `Client` kvraft/client.go and `Broadcast` kvraft/bcast.go.
--   Bio          `Disk` models bio/bio.go over the interface of bio/dsk.go, `Mock` the disk in
--                memory; `Local` has the laws of a disk that one client uses, which the journal's
--                theorems take and `Mock` satisfies.
--   Jrnl         `Blocks` models jrnl/dat.go and jrnl/parse.go, `Txn` the functions `WriteBlock`
--                and `BeginTransaction` of jrnl/txn.go, `Close` its `EndTransaction` and
--                `AbortTransaction`, `Replay` jrnl/replay.go, `Setup` jrnl/sb.go.
--   Fs           fs/fs.go; `Reads` shows what is read through a descriptor, `Writes` what a write
--                does with its transaction, `ReadBack` what is read after it, and `Directory`
--                what is found. `Ended` and `Transacted` have its lemmas.
--   Cli          the commands of main.go; `Words` reads a line, `Session` shows what a
--                transaction that is typed does, and `Refused` what a refused command leaves.
--   Netdrv       netdrv/ppns.go, the name server, and the server lists of netdrv/nc.go and
--                netdrv/staticaddr.go.
--   Balloc       balloc/balloc.go on the bitmap that it has read; `Blocks` in a transaction.
--   Inode        inode/inode.go; `Chunk` and `Blocks` model inode/iblock.go, and `Contents`,
--                `Read` and `File` show what is read, `Splice`, `Chunks`, `Stored`, `Lengths` and
--                `Write` what is written; `Allocated` shows what `Alloci` takes.
--   The modules below these hold the lemmas, and `Tests` the concrete inputs.
--
-- How the code is read. A handler that holds the mutex from its first line to its last is one
-- function from the state to the new state and the reply. `none` as the result of a function is a
-- panic or a call of `log.Fatal`: an index out of range, a nil pointer, a value that cannot be
-- encoded. Terms, indexes and times are natural numbers: they start at 0 and only grow, and 63
-- bits are not exhausted. Where the code uses -1, the model has signed integers. The clock is an
-- argument. What is sent on a channel is appended to a list; a full channel and a slow reader are
-- not modelled. The persister holds the values that `persist` encodes: encoding with gob is taken
-- to be faithful on slices of non-nil pointers, and to fail on a nil one, as its documentation
-- says. Client and request numbers are unsigned words of 64 bits; parsing and printing them is
-- modelled with that bound, and the age of a lease with the wrap-around of signed words. A map of
-- Go is a function to options, or a list of pairs where the code ranges over it. `Bget` repeats
-- until it has the lock and the data: it is on fuel, a round for each try, and one round is enough
-- on the disk in memory when the lock is not held. The loops of the journal take a round for each
-- block of a segment, so that twice the blocks of a segment is enough, and each retry of a lost
-- lease takes one more. The encoding of an inode is a parameter. The rounds of the clerk's loop
-- are a list: how the call of the round ends and how many calls come back in it, with the random
-- number and the time of the round; the clerk's mutex, which is held during a call, is the line of
-- the calls that are out, and is handed on in the order of arrival. The state of the consensus
-- module and that of the service are two arguments, since they are two objects with a mutex each.
--
-- What is not modelled, and why. Goroutine scheduling inside a handler does not occur, since each
-- holds the mutex; between handlers the order is that of the steps, which is arbitrary. Sockets,
-- RPC transport, dialling, the terminal and logging are input and output. labgob passes its calls
-- on to the encoder. Of kvraft/, the bookkeeping for the start of a server and of a client is left
-- out; of netdrv/, sockets and dialling; of main.go, the texts of errors, the check of the
-- arguments, and the start of a server and of the name server.
pub mod Prelude
pub mod Raft
pub mod Text
pub mod Kvraft
pub mod Bio
pub mod Jrnl
pub mod Balloc
pub mod Netdrv
pub mod Inode
pub mod Fs
pub mod Cli
