-- ===== src/Lib.antt =====
-- August is a blockchain node: accounts with balances, transactions that move money or run
-- contracts on a stack machine (the AVM), blocks that are mined, validated and applied to a chain,
-- a pool of waiting transactions, and a node that follows the chain of the most work. This library
-- models its core, from an instruction of the AVM up to the application and the mining of a block
-- and the processing of headers by the node, with the assembler and the lexer of the language that
-- compiles to the AVM.
--
-- The parts, and how they interact. A block (Blockchain/Block.antt) is checked against the chain
-- and applied by Blockchain/ValidateBlock.antt, which validates each transaction
-- (Blockchain/Validate.antt) and applies it (Blockchain/Apply.antt) to a copy of the accounts. The
-- application reaches contracts through an interface (Blockchain/Executor.antt), which
-- Execution.antt implements by runs of the machine (Avm/Run.antt) and which the theorems of Apply
-- take as a parameter.
--
-- What models which code:
--   Config.antt: the constants of config/config.go.
--   Types/: types/bytecode.go. Opcode.antt has the opcodes and `Price`, Names.antt their names,
--     Make.antt the functions that make instructions, Literal.antt and
--     Instruction.antt have `GetValueAsBigInt` and `ValidateInstruction`.
--   Avm/: avm/runtime.go. Word.antt has the signed 256-bit operations, Machine.antt the state with
--     `Push`, `Pop`, `Swap`, `Store` and `Load`, Strings.antt `readStringFromMemory` and
--     `storeStringInMemory`, Decimal.antt decimal texts, Perform.antt, Frames.antt and StringOps.antt one
--     action for each case of the switch of `ExecuteInstruction`, Run.antt the rest of `ExecuteInstruction`,
--     `StartExecution` and `NewRuntimeWithIC`. Assembler.antt is avm/parser.go.
--   Utils/: utils/safemath.go and utils/convert.go.
--   Blockchain/: Primitives.antt, Merkle.antt, Sorting.antt, Storage.antt and StateRoot.antt are
--     blockchain/crypto.go, with the hash of an account of account.go; Account.antt
--     and Transaction.antt are account.go and transaction.go; Header.antt is block.go, work.go and
--     difficulty.go; Block.antt and Getters.antt are block.go and chain.go; Validate.antt,
--     Executor.antt, Apply.antt, ValidateBlock.antt, its child Structure.antt (blocks without a chain) and
--     HeaderChain.antt (headers without their blocks) are validation.go.
--     Mining.antt is mining.go; it copies the accounts as the validation of a block does.
--   Execution.antt: execution/execution.go.
--   Node/: Heap.antt has the entries of node/mempool.go and Go's `container/heap` on them, Mempool.antt
--     the methods of the pool. Orphans.antt has the headers that wait for a parent (node/orphans.go, and
--     the lines of node/header_processing.go that change them). State.antt is the struct of
--     node/node.go with the state of node/lifecycle.go, Queries.antt is node/getters.go. The handlers of
--     node/header_processing.go are in Fork.antt (which chain a header extends, and new chains),
--     Extend.antt (the current chain) and Candidate.antt (other chains and the reorganisation, with
--     node/tasks.go); Process.antt puts them together as `ProcessHeader` and has the other methods.
--     Steps.antt has the goroutines and the whole steps of a node, as a step relation, Turns.antt
--     what happens while a `ProcessHeader` waits for its peers, and the states that a node can come to.
--   Marigold/: marigold/tokens.go and marigold/lexer.go.
--   Base/: Boolean tests, list functions, integers, byte strings and maps.
--
-- Representation. A `uint64` is a natural number with its wrap-around written out; its range is a
-- hypothesis (`IsTransaction`, `Fits`). A `big.Int` is an integer without bounds. A key or a hash
-- of 32 bytes is the number of its bytes, so that the empty key is 0. A Go map is an association
-- list. The maps of accounts hold pointers in the source; an account is read under its key
-- wherever the source reads it through a pointer, and written back there, so that the sharing of
-- accounts between `ApplyTransaction` and the executor is kept. A run-time panic is a value of its
-- own in every result. Log output has no model. The chains of a node are shared through pointers:
-- a pointer is a number, and the state of a node maps it to the chain. A goroutine that was
-- started is a task in the state, and each part of it between two waits is one step.
--
-- Parameters. SHA-256 and the verification of Ed25519 signatures are the record `Crypto`; nothing
-- is assumed of them. The largest slice that Go makes is the number `max_alloc`. The genesis block
-- is a field of `World`. What a node gets from outside while it processes a header is the record
-- `Environment`: the answers of its peers to each request or a timeout, `sort.Slice` by height,
-- and the orders in which Go visits its maps; where a theorem needs it, a visit of the chains is
-- any permutation. The answers are of the type that was asked for. The order in which Go visits
-- the map of the pool is an argument of the methods that visit it; their theorems take any
-- permutation.
--
-- Bounds and fuel. A run of the machine has as many rounds as it has gas, and one more: every
-- instruction that lets the loop go on costs gas. The Merkle loop has as many rounds as there are
-- hashes, and one more: each round makes the list shorter. The search for a nonce has as many
-- rounds as there are nonces. The lexer has as many rounds as its text has bytes. The loops of the
-- heap have as many rounds as the index they start from or the length of the queue, and one more:
-- the index of each round is smaller, or larger and inside. The walks along the headers have as
-- many rounds as the node has headers, and one more; where the links of the headers go round in no
-- circle, which a collision of hashes would take, that is enough.
--
-- Not modelled: the parser, the type checker and the code generator of the Marigold language
-- (marigold/), the HTTP handlers of node/api.go but for the work that /submit-block starts, the
-- services that node/lifecycle.go starts and stops, the making of the genesis block
-- (blockchain/genesis.go), the network layer (libnet/, generated code and input and output), the
-- commands (cmd/) and the helpers of the tests. The code of an operation from
-- one wait for peers to the next is one step: other goroutines run in between (Node/Turns.antt),
-- but not at the points inside such a part where a mutex is free. The theorems in Node/Process/
-- are on a `ProcessHeader` that nothing comes between. The announcements to peers are left out.
pub mod Base
pub mod Config
pub mod Types
pub mod Avm
pub mod Utils
pub mod Blockchain
pub mod Execution
pub mod Node
pub mod Marigold
