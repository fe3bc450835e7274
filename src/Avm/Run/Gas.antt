-- ===== src/Avm/Run/Gas.antt =====
-- avm/runtime.go: the gas of a run. It is conserved between the two fields, each instruction that
-- lets the loop go on takes some, and so the loop ends within the gas it was given.
use august.Base.{
  ℕ, zero, suc, ◌+◌, ◌≤◌, ◌<◌, ◌≡◌, refl, Bool, true, false, Option, none, some, ltb, Bool-cases,
  inl, inr, arith, ◌∙◌,
}
use august.Base.Bytes.{Bytes}
use august.Base.Dict.{Dict}
use august.Config.{u64_mod}
use august.Types.Opcode.{Opcode, price, price_positive}
use august.Types.Instruction.{Instruction, InvalidInstruction, validate_instruction}
use august.Avm.Machine.{Setting, Machine, Reply, ok, err, stopped, panic, Done}
use august.Avm.Perform.{perform}
use august.Avm.Run.{
  Runtime, new_runtime, Outcome, returns, panics, charge, settle, fetched, instruction_at,
  execute_instruction, run_loop, start_execution, checked, is_clean, go_on, has_more,
}

-- The gas that is left and the gas that is used add up to what they did in `r`.
abbrev pub Accounts : Runtime → Outcome → Type 0
Accounts r (returns e r') = r'.gas_available + r'.gas_used ≡ r.gas_available + r.gas_used
Accounts r panics = Unit {0}

-- The loop goes on only with less gas.
abbrev pub Consumes : Runtime → Outcome → Type 0
Consumes r (returns none r') = r'.gas_available < r.gas_available
Consumes r _ = Unit {0}

settle-Accounts :
    (op : Opcode) (x : Reply Done × Machine) (r : Runtime)
    → price op ≤ r.gas_available
    → r.gas_available + r.gas_used < u64_mod
    → Accounts r (settle op x r)
unfolding charge
settle-Accounts op (ok a, m) r h b = omega arith
settle-Accounts op (err e, m) r h b = omega arith
settle-Accounts op (stopped, m) r h b = refl
settle-Accounts op (panic, m) r h b = tt

settle-Consumes :
    (op : Opcode) (x : Reply Done × Machine) (r : Runtime)
    → 1 ≤ price op
    → price op ≤ r.gas_available
    → Consumes r (settle op x r)
unfolding charge
settle-Consumes op (ok a, m) r h b = omega arith
settle-Consumes op (err e, m) r h b = tt
settle-Consumes op (stopped, m) r h b = tt
settle-Consumes op (panic, m) r h b = tt

perform-Consumes :
    (s : Setting) (i : Instruction) (op : Opcode) (r : Runtime)
    → price op ≤ r.gas_available
    → Consumes r (settle op (perform s i op r.machine) r)
unfolding perform
perform-Consumes s i Opcode.stop r b = tt
perform-Consumes s i Opcode.pc r b = tt
perform-Consumes s i op r b =
    settle-Consumes op (perform s i op r.machine) r (price_positive op (cc) (cc)) b

checked-Accounts :
    (v : Option InvalidInstruction) (short : Bool) (r : Runtime) (o : Outcome)
    → (short ≡ false → Accounts r o)
    → Accounts r (checked v short r o)
checked-Accounts (some e) short r o h = refl
checked-Accounts none true r o h = refl
checked-Accounts none false r o h = h refl

checked-Consumes :
    (v : Option InvalidInstruction) (short : Bool) (r : Runtime) (o : Outcome)
    → (short ≡ false → Consumes r o)
    → Consumes r (checked v short r o)
checked-Consumes (some e) short r o h = tt
checked-Consumes none true r o h = tt
checked-Consumes none false r o h = h refl

price_paid :
    (op : Opcode) (r : Runtime)
    → ltb r.gas_available (price op) ≡ false
    → price op ≤ r.gas_available
price_paid op r h = ground arith

fetched-Accounts :
    (s : Setting) (o : Option Instruction) (r : Runtime)
    → r.gas_available + r.gas_used < u64_mod
    → Accounts r (fetched s o r)
fetched-Accounts s none r b = tt
fetched-Accounts s (some i) r b =
    checked-Accounts (validate_instruction i) _ r _
      λ h. settle-Accounts i.opcode _ r (price_paid i.opcode r h) b

fetched-Consumes : (s : Setting) (o : Option Instruction) (r : Runtime) → Consumes r (fetched s o r)
fetched-Consumes s none r = tt
fetched-Consumes s (some i) r =
    checked-Consumes (validate_instruction i) _ r _
      λ h. perform-Consumes s i i.opcode r (price_paid i.opcode r h)

-- After one instruction the gas that is left and the gas used add up to what they did before,
-- whether it goes through, fails or stops the program; only a panic is left out.
pub execute_instruction-Accounts :
    (s : Setting) (r : Runtime)
    → r.gas_available + r.gas_used < u64_mod
    → Accounts r (execute_instruction s r)
unfolding execute_instruction
execute_instruction-Accounts s r b =
    fetched-Accounts s (instruction_at s.instructions r.machine.ic) r b

execute_instruction-Consumes : (s : Setting) (r : Runtime) → Consumes r (execute_instruction s r)
unfolding execute_instruction
execute_instruction-Consumes s r = fetched-Consumes s (instruction_at s.instructions r.machine.ic) r

trans_Accounts :
    (r r' : Runtime) (o : Outcome)
    → r'.gas_available + r'.gas_used ≡ r.gas_available + r.gas_used
    → Accounts r' o
    → Accounts r o
trans_Accounts r r' (returns e r'') a q = q ∙ a
trans_Accounts r r' panics a q = tt

-- What the loop gives with enough fuel: an end, and the gas accounted for.
abbrev Ends : Setting → ℕ → Runtime → Type 0
Ends s fuel r = (o : Outcome) × (run_loop s fuel r ≡ some o) × Accounts r o

go_on-Ends :
    (s : Setting) (fuel : ℕ) (r : Runtime) (o : Outcome)
    → Accounts r o
    → Consumes r o
    → r.gas_available < suc fuel
    → ((r' : Runtime)
        → r'.gas_available < fuel
        → r'.gas_available + r'.gas_used ≡ r.gas_available + r.gas_used
        → Ends s fuel r')
    → (e : Outcome) × (go_on (run_loop s fuel) o ≡ some e) × Accounts r e
go_on-Ends s fuel r (returns none r') a c h next =
    let (e, p, q) = next r' (omega arith) a in (e, p, trans_Accounts r r' e a q)
go_on-Ends s fuel r (returns (some e) r') a c h next = (returns (some e) r', refl, a)
go_on-Ends s fuel r panics a c h next = (panics, refl, tt)

-- The loop ends, whatever the code does, within one round more than there is gas, and at its end,
-- unless that is a panic, the gas that is left and the gas used add up to what they did before.
pub run_loop-Ends :
    (s : Setting) (fuel : ℕ) (r : Runtime)
    → r.gas_available < fuel
    → r.gas_available + r.gas_used < u64_mod
    → Ends s fuel r
unfolding run_loop
run_loop-Ends s zero r h b = absurd (omega arith)
run_loop-Ends s (suc fuel) r h b = elim (Bool-cases (has_more s r.machine)) [
  | inl more ↦
      rw (more, run_loop)
        (go_on-Ends s fuel r (execute_instruction s r) (execute_instruction-Accounts s r b)
          (execute_instruction-Consumes s r) h
          (λ r' h' a. run_loop-Ends s fuel r' h' (omega arith)))
  | inr end ↦ rw (end, run_loop) (returns none r, refl, refl)
]

-- The gas used is reported only by a run that returns.
abbrev pub UsesAtMost : ℕ → Outcome → Type 0
UsesAtMost gas (returns e r) = r.gas_used ≤ gas
UsesAtMost gas panics = Unit {0}

Accounts-UsesAtMost :
    (gas ic : ℕ) (storage : Dict Bytes Bytes) (o : Outcome)
    → Accounts (new_runtime gas ic storage) o
    → UsesAtMost gas o
unfolding new_runtime
Accounts-UsesAtMost gas ic storage (returns e r) a = omega arith
Accounts-UsesAtMost gas ic storage panics a = tt

is_clean-new :
    (gas ic : ℕ) (storage : Dict Bytes Bytes)
    → is_clean ic (new_runtime gas ic storage).machine ≡ true
unfolding is_clean new_runtime
is_clean-new gas ic storage = ground arith

new_runtime_gas :
    (gas ic : ℕ) (storage : Dict Bytes Bytes)
    → let r = new_runtime gas ic storage in
      (r.gas_available < suc gas) × (r.gas_available + r.gas_used ≡ gas)
unfolding new_runtime
new_runtime_gas gas ic storage = omega arith

-- A run from a new runtime ends, whatever the code, the entry point and the storage, and if it does
-- not end in a panic it has used no more gas than it was given: one round more than the gas is
-- enough.
pub start_execution_ends :
    (s : Setting) (gas ic : ℕ) (storage : Dict Bytes Bytes)
    → gas < u64_mod
    → (o : Outcome) × (start_execution s (suc gas) ic (new_runtime gas ic storage) ≡ some o)
      × UsesAtMost gas o
unfolding start_execution
start_execution_ends s gas ic storage b =
    let (o, p, a) =
      run_loop-Ends s (suc gas) (new_runtime gas ic storage) (new_runtime_gas gas ic storage).0
        (rw (new_runtime_gas gas ic storage).1 b) in
    (o, rw is_clean-new p, Accounts-UsesAtMost gas ic storage o a)
