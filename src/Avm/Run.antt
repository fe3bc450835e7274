-- ===== src/Avm/Run.antt =====
-- avm/runtime.go: `NewRuntimeWithIC`, `ExecuteInstruction` and `StartExecution`.
pub mod Gas
use august.Base.{
  ℕ, zero, suc, ◌+◌, ◌-◌, ◌%◌, Bool, true, false, Option, none, some, List, [], ◌∷◌, ltb,
  if◌then◌else◌, length, get_elem?, ◌&&◌,
}
use august.Base.Int.{ℤ, pos, negsuc, ◌+ℤ◌, ltb_ℤ, eqb_ℤ, wrap64}
use august.Base.Bytes.{Bytes}
use august.Base.Dict.{Dict}
use august.Config.{u64_mod}
use august.Types.Opcode.{Opcode, price}
use august.Types.Instruction.{Instruction, InvalidInstruction, validate_instruction}
use august.Avm.Machine.{
  Setting, Machine, AvmError, out_of_gas, program_stopped, not_clean, invalid_instruction, Reply,
  ok, err, stopped, panic, Done,
}
use august.Avm.Perform.{perform, next_ic}

-- `Runtime`, with the fields that the instructions change under `machine`.
pub record Runtime : Type 0 where
  pub machine : Machine
  pub gas_available : ℕ
  pub gas_used : ℕ

-- `NewRuntimeWithIC`, with the persistent storage that its callers then fill in.
unfoldable pub new_runtime : ℕ → ℕ → Dict Bytes Bytes → Runtime
new_runtime gas start_ic storage = record {
  machine = record {
    stack = [];
    memory = [];
    frame_pointer = pos 0;
    ic = pos start_ic;
    persistent = storage;
    return_stack = [];
    frame_stack = [];
    next_memory_addr = 100;
  };
  gas_available = gas;
  gas_used = 0;
}

-- How one call of `ExecuteInstruction` ends: the error, nil as `none`, or a run-time panic.
pub data Outcome : Type 0 where
  returns : Option AvmError → Runtime → Outcome
  panics : Outcome

abbrev is_jump : Opcode → Bool
is_jump Opcode.jump = true
is_jump Opcode.jumpc = true
is_jump _ = false

-- What follows the `switch`: the gas is taken, and the counter stepped except after a jump,
-- whether or not the case has set an error.
unfoldable pub charge : Opcode → Machine → Runtime → Runtime
charge op m r = record {
  machine = if is_jump op then m else next_ic m;
  gas_available = r.gas_available - price op;
  gas_used = (r.gas_used + price op) % u64_mod;
}

abbrev pub settle : Opcode → Reply Done × Machine → Runtime → Outcome
settle op (ok a, m) r = returns none (charge op m r)
settle op (err e, m) r = returns (some e) (charge op m r)
settle op (stopped, m) r = returns (some program_stopped) (record r { machine = m })
settle op (panic, m) r = panics

-- The two returns above the `switch`: on a validation error, and without the gas for the opcode.
abbrev pub checked : Option InvalidInstruction → Bool → Runtime → Outcome → Outcome
checked (some e) short r run = returns (some (invalid_instruction e)) r
checked none true r run = returns (some out_of_gas) r
checked none false r run = run

abbrev pub fetched : Setting → Option Instruction → Runtime → Outcome
fetched s none r = panics
fetched s (some i) r =
    let run = settle i.opcode (perform s i i.opcode r.machine) r in
    checked (validate_instruction i) (ltb r.gas_available (price i.opcode)) r run

-- `r.Instructions[r.IC]`: an index out of range panics.
abbrev pub instruction_at : List Instruction → ℤ → Option Instruction
instruction_at code (pos n) = get_elem? code n
instruction_at code (negsuc n) = none

unfoldable pub execute_instruction : Setting → Runtime → Outcome
unfolding perform validate_instruction charge
execute_instruction s r = fetched s (instruction_at s.instructions r.machine.ic) r

-- After an instruction: the rest of the loop, or the end of the run.
abbrev pub go_on : (Runtime → Option Outcome) → Outcome → Option Outcome
go_on rest (returns none r) = rest r
go_on rest (returns (some e) r) = some (returns (some e) r)
go_on rest panics = some panics

-- `r.IC < len(r.Instructions)`
unfoldable pub has_more : Setting → Machine → Bool
has_more s m = ltb_ℤ m.ic (pos (length s.instructions))

-- The loop of `StartExecution`. `none` is lack of fuel; for the fuel that is enough see
-- Avm/Run/Gas.antt.
unfoldable pub run_loop : Setting → ℕ → Runtime → Option Outcome
unfolding execute_instruction
run_loop s zero r = none
run_loop s (suc fuel) r = elim (has_more s r.machine) [
  | false ↦ some (returns none r)
  | true ↦ go_on (run_loop s fuel) (execute_instruction s r)
]

abbrev no_values : List ℤ → Bool
no_values [] = true
no_values (v ∷ vs) = false

-- Neither the counter nor the stack has moved.
unfoldable pub is_clean : ℕ → Machine → Bool
is_clean start_ic m = eqb_ℤ m.ic (pos start_ic) && no_values m.stack

-- `StartExecution`: the gas used is that of the runtime returned; a runtime that is not clean is
-- refused before anything runs.
unfoldable pub start_execution : Setting → ℕ → ℕ → Runtime → Option Outcome
unfolding run_loop
start_execution s fuel start_ic r =
    let run = run_loop s fuel r in
    if is_clean start_ic r.machine then run else some (returns (some not_clean) r)
