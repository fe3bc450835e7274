-- ===== src/Utils.antt =====
-- utils/: checked arithmetic on `uint64`, and the compact form of targets.
pub mod SafeMath
pub mod Compact
