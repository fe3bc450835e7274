-- ===== src/Blockchain.antt =====
-- blockchain/: accounts, transactions, and what a block does to them.
pub mod Primitives
pub mod Account
pub mod Transaction
pub mod Merkle
pub mod Sorting
pub mod Storage
pub mod StateRoot
pub mod Validate
pub mod Executor
pub mod Apply
pub mod Header
pub mod HeaderChain
pub mod Block
pub mod Getters
pub mod ValidateBlock
pub mod Mining
mod Tests
pub mod BlockTests
mod HeaderTests
mod MiningTests
mod RootTests
