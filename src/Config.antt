-- ===== src/Config.antt =====
-- config/config.go: the constants that the modelled code reads.
use august.Base.{ℕ, ◌*◌, ◌-◌, ◌^◌}

abbrev pub u64_mod : ℕ
u64_mod = 2 ^ 64

-- `^uint64(0)`
abbrev pub max_amount : ℕ
max_amount = 2 ^ 64 - 1

abbrev pub aug : ℕ
aug = 1_000_000

abbrev pub block_reward : ℕ
block_reward = 50 * aug

abbrev pub contract_deployment_fee : ℕ
contract_deployment_fee = 1 * aug

abbrev pub gas_transfer : ℕ
gas_transfer = 21000

abbrev pub gas_contract_deploy : ℕ
gas_contract_deploy = 21000

abbrev pub gas_data_per_byte : ℕ
gas_data_per_byte = 68

abbrev pub avm_max_stack_size : ℕ
avm_max_stack_size = 10000

abbrev pub avm_max_memory_size : ℕ
avm_max_memory_size = 10000

abbrev pub recalculation_frequency : ℕ
recalculation_frequency = 2016

abbrev pub target_timespan : ℕ
target_timespan = 1209600

abbrev pub max_adjustment_factor : ℕ
max_adjustment_factor = 4

-- `GetTargetCompact`, whose `IsTestMode` is always true.
abbrev pub target_compact : ℕ
target_compact = 0x1f00ffff

-- `FirstUser`
abbrev pub first_user : ℕ
first_user = 0x993fe6a36d19ed527890a7698e940c3c1c629ca06443837871cb0ed19435229b

abbrev pub max_candidate_chain_depth_gap : ℕ
max_candidate_chain_depth_gap = 6

abbrev pub mempool_max_size : ℕ
mempool_max_size = 1000

-- Seven days in nanoseconds.
abbrev pub mempool_max_expiry : ℕ
mempool_max_expiry = 7 * 24 * 3600 * 10 ^ 9
