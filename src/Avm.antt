-- ===== src/Avm.antt =====
-- avm/: the stack machine that runs contracts.
pub mod Word
pub mod Machine
pub mod Strings
pub mod Decimal
pub mod StringOps
pub mod Frames
pub mod Perform
pub mod Run
pub mod Assembler
mod Tests
