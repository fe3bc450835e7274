-- ===== src/Types.antt =====
-- types/types.go and types/bytecode.go: the instructions of the virtual machine.
pub mod Opcode
pub mod Literal
pub mod Instruction
pub mod Names
pub mod Make
mod Tests
