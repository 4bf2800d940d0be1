-- ===== src/Lib.antt =====
-- Veda BVM: the virtual machine of a chain (a fork of py-evm) and its databases.
--
-- The development follows veda/vm and veda/db. A component is a module, its theorems stand in
-- child modules, and its tests and the theorems at concrete inputs in a child `Tests`.
--
-- - Common: lists, tests and integers over the native numbers.
-- - Exceptions: veda/exceptions.py. A method of a mutable object is a function from the object to a
--   result or an exception and the object that it leaves, so that what was written before a raise
--   stays written.
-- - External: the conversions between integers and bytes of the package eth_utils, a parameter with
--   its documented laws; External.Reference is one implementation, used by the tests.
-- - Numeric: veda/_utils/numeric.py and the width constants of veda/constants.py.
-- - Stack: veda/vm/stack.py. The list `values` is turned round: the top comes first.
-- - Memory: veda/vm/memory.py. A bytearray is a list of bytes.
-- - Gas: veda/vm/gas_meter.py.
-- - Computation: veda/vm/computation.py, the machine state that opcodes work on and the calls that
--   extend memory for gas.
-- - Logic: veda/vm/logic, the opcodes. Logic.Arithmetic and Logic.Comparison are the functions that
--   those opcodes compute, Logic.Ops makes them data, Logic.Total says what running one does.
--   Logic.Flow has the opcodes of flow.py, stack.py, duplication.py, swap.py and memory.py.
-- - Storage: veda/vm/logic/storage.py and veda/vm/forks/veda/storage.py, what storing a word costs.
--   Storage.Price says what was paid for a word, Storage.Effect and Storage.Metered what one write
--   does, Storage.Looks what a look does, Storage.Runs what many do.
-- - Calls: veda/vm/logic/call.py and its classes in veda/vm/forks/veda/logic.py. Calls.Fees shares the
--   gas between a computation and its child, Calls.Child says what comes back, and Calls.Spends joins
--   the two by Execution.Within, the rules for calls that give at most so much gas.
-- - Creates: the classes Create and Create2 of veda/vm/logic/system.py, as the Veda fork changes them.
-- - Nested: the two in the table of opcodes, where a child is the run of a message whose opcodes call in
--   turn. Execution.Left bounds the gas that a message leaves.
-- - Dict: dictionaries as association lists.
-- - Journal: the class `Journal` of veda/db/journal.py. Journal.Ideal is its contract: the pending
--   changes and a copy of them for each open checkpoint. Journal.Tracks relates the two,
--   Journal.Refines and Journal.Runs prove the refinement.
-- - Database: what veda/db/backends promises, as a record of operations and laws that the other
--   databases take as a parameter, and the database in memory. Database.Diff and Database.Batch are
--   veda/db/diff.py and veda/db/batch.py; Database.Applied, Database.Commit and Database.Atomic say
--   what applying, committing and a `with` block leave.
-- - JournalDb: the class `JournalDB` of veda/db/journal.py, over a database and a journal.
--   JournalDb.Sound is the invariant that JournalDb.Calls keeps and JournalDb.Persist uses.
-- - ChainGaps: veda/db/chain_gaps.py. A number is missing if it lies in a range or past the tip.
--   ChainGaps.Fill and ChainGaps.Reopen say what storing and giving up a header leaves.
-- - Message: veda/vm/message.py.
-- - Execution: the run of a computation of veda/vm/computation.py, and Execution.Messages how
--   veda/vm/forks/veda/computation.py applies messages to the state. Opcodes and precompiled
--   contracts are parameters of a run, the state a record of operations and laws of snapshots.
--   Execution.Ends and Execution.Settles are about gas, Execution.Opens and Execution.Reverts about
--   snapshots, Execution.Whole and Execution.Applies join them. Execution.Costs shows that an opcode
--   of the machine with a cost takes gas, Execution.Copies is a state that fulfils the laws, and
--   Execution.Refunds is about the gas refund. Execution.Entries are the log entries of a computation
--   and the accounts that it deletes, Execution.Logs and Execution.Deletions are about them.
-- - Estimator: veda/estimators/gas.py. What a transaction does to the state is a parameter.
--   Estimator.Answers is what it comes to, Estimator.Outcomes and Estimator.Search what a search does.
-- - Code: veda/vm/code_stream.py. A set of positions is a list.
--
-- Fuel: the loop of `get_highest_bit_index` has as many rounds as its value, and the recursion of
-- `is_valid_opcode` goes as deep as its position; theorems show that both end. The bit length that
-- EXP charges gas by halves its number at most as often as the number is large. The loop over the
-- opcodes takes gas in each round, so that fuel above the gas of the message is enough. The search of
-- the estimator halves a range below the block's gas limit. Calls nest to a number of levels, at which
-- a message ends as one past the limit of the stack does; 1025 levels are more than that limit allows.
--
-- Python's integers are native numbers where the code keeps them from being negative, and the
-- integers of Common.Int elsewhere. Logging, type tests and messages of exceptions are left out.
--
-- A computation holds a stack, a memory, a gas meter and a code stream, and an opcode is a chain of
-- their calls (`on_stack`, `on_memory`, `on_gas_meter`, `on_code`), with the gas of `extend_memory`
-- between them. Logic.Jumps, Logic.Push, Logic.Laws and Logic.Widths say what single opcodes do.
-- A message sets up a computation, whose opcodes run until one halts or raises; the state is then
-- committed or reverted. The databases stand apart: the state that holds them is not modelled.
--
-- Not modelled: the opcodes that read the environment, RETURN, REVERT, SELFDESTRUCT and LOG, the
-- state and its databases (accounts, storage, chain and headers), the Veda fork's transactions and
-- blocks and the precompiled contracts, which need the parts here; tries, encodings and hashing,
-- which are other packages' code; the JSON-RPC server, services,
-- configuration and tools, which are input, output and glue.
pub mod Common
pub mod Exceptions
pub mod Numeric
pub mod External
pub mod Stack
pub mod Storage
pub mod Calls
pub mod Creates
pub mod Nested
pub mod Gas
pub mod Memory
pub mod Code
pub mod Computation
pub mod Logic
pub mod Message
pub mod Execution
pub mod Estimator
pub mod Dict
pub mod Database
pub mod JournalDb
pub mod Journal
pub mod ChainGaps
