-- ===== src/Avm/Machine.antt =====
-- avm/runtime.go: the state of a run, and the operations on its stack and memory.
-- `Machine` has the fields of `Runtime` that the instructions change, the two gas fields apart
-- (Avm/Run.antt); `Setting` has those that a run never changes.
use august.Base.{
  ℕ, Option, none, some, List, [], ◌∷◌, ◌&&◌, ltb, leb, if◌then◌else◌, length, get_or, set,
}
use august.Base.Int.{ℤ, pos, negsuc}
use august.Base.Bytes.{Bytes}
use august.Base.Dict.{Dict, lookup, insert, nat_eq}
use august.Types.Instruction.{Instruction, InvalidInstruction}

-- A key or a hash is the number of its 32 bytes, the first the most significant.
pub record BlockchainContext : Type 0 where
  pub block_number : ℕ
  pub block_hash : ℕ
  pub last_block_hash : ℕ
  pub timestamp : ℕ
  pub difficulty : ℕ
  pub gas_limit : ℕ
  pub coinbase : ℕ
  pub chain_id : ℕ
  pub caller : ℕ
  pub origin : ℕ
  pub gas_price : ℕ
  pub call_value : ℕ
  pub contract_address : ℕ
  pub tsx_data : Bytes
  pub deployer : ℕ
  pub deployment_time : ℕ
  pub deployment_gas : ℕ

-- The sizes are `maxSize` of `stack` and of `memory`, 0 for no bound; `max_alloc` is the largest
-- slice that the Go runtime makes, a `make` above it panics.
pub record Setting : Type 0 where
  pub instructions : List Instruction
  pub context : BlockchainContext
  pub max_stack : ℕ
  pub max_memory : ℕ
  pub max_alloc : ℕ

-- The top of the stack is the head of the list; the top entries of `return_stack` and
-- `frame_stack` too. `ic`, `frame_pointer` and the saved ones are Go's `int`.
pub record Machine : Type 0 where
  pub stack : List ℤ
  pub memory : Dict ℕ ℤ
  pub frame_pointer : ℤ
  pub ic : ℤ
  pub persistent : Dict Bytes Bytes
  pub return_stack : List ℤ
  pub frame_stack : List ℤ
  pub next_memory_addr : ℕ

pub data AvmError : Type 0 where
  out_of_gas empty_stack stack_underflow stack_overflow invalid_jump invalid_opcode : AvmError
  memory_out_of_bounds program_stopped invalid_swap_parameter invalid_offset : AvmError
  invalid_string not_a_number index_out_of_range not_clean : AvmError
  invalid_instruction : InvalidInstruction → AvmError

-- How an instruction's case ends: with a value, with `err` set, by `return ErrProgramStopped`
-- out of the function, or in a run-time panic.
pub data Reply (A : Type 0) : Type 0 where
  ok : A → Reply A
  err : AvmError → Reply A
  stopped : Reply A
  panic : Reply A

-- What the case has written stays written, however it ends.
abbrev pub Action : Type 0 → Type 0
Action A = Machine → Reply A × Machine

module _ {A : Type 0} where
  abbrev pub pure : A → Action A
  pure a m = (ok a, m)

  abbrev pub raise : AvmError → Action A
  raise e m = (err e, m)

  abbrev pub crash : Action A
  crash m = (panic, m)

abbrev pub handle : {A B : Type 0} → Reply A → (A → Action B) → Action B
handle (ok a) f m = f a m
handle (err e) f m = (err e, m)
handle stopped f m = (stopped, m)
handle panic f m = (panic, m)

infixl 5 ◌>>=◌ ◌>>◌
abbrev pub ◌>>=◌ : {A B : Type 0} → Action A → (A → Action B) → Action B
◌>>=◌ x f m = let (r, m') = x m in handle r f m'

abbrev pub ◌>>◌ : {A B : Type 0} → Action A → Action B → Action B
x >> k = x >>= λ _. k

abbrev pub Done : Type 0
Done = Unit {0}

abbrev pub modify : (Machine → Machine) → Action Done
modify f m = (ok tt, f m)

-- `stack.Push`
unfoldable pub push : Setting → ℤ → Action Done
push s v m =
    if ltb 0 s.max_stack && leb s.max_stack (length m.stack)
    then (err stack_overflow, m)
    else (ok tt, record m { stack = v ∷ m.stack })

abbrev pop_from : List ℤ → Action ℤ
pop_from [] m = (err empty_stack, m)
pop_from (v ∷ rest) m = (ok v, record m { stack = rest })

-- `stack.Pop`
unfoldable pub pop : Action ℤ
pop m = pop_from m.stack m

abbrev top_of : List ℤ → Action ℤ
top_of [] m = (err empty_stack, m)
top_of (v ∷ rest) m = (ok v, m)

-- `stack.Top`
unfoldable pub top : Action ℤ
top m = top_of m.stack m

-- `stack.Pop2`: the first value popped, then the second. The first stays popped if the second
-- pop fails.
unfoldable pub pop2 : Action (ℤ × ℤ)
unfolding pop
pop2 = do v1 ← pop; v2 ← pop; pure (v1, v2)

-- The two writes of `stack.Swap`, `down` places below the top `v`.
abbrev exchange : List ℤ → ℕ → List ℤ
exchange [] down = []
exchange (v ∷ rest) down = set (get_or (v ∷ rest) down v ∷ rest) down v

-- `stack.Swap`: a negative `down` passes the test of the size and indexes past the end.
unfoldable pub swap : ℤ → Action Done
unfolding top
swap (pos down) m =
    if leb (length m.stack) down
    then (err stack_underflow, m)
    else (ok tt, record m { stack = exchange m.stack down })
swap (negsuc down) m = (top >> crash) m

-- `memory.Store`
unfoldable pub store : Setting → ℕ → ℤ → Action Done
unfolding insert
store s address value m =
    if ltb 0 s.max_memory && leb s.max_memory address
    then (err memory_out_of_bounds, m)
    else (ok tt, record m { memory = insert address value m.memory })

abbrev pub or_zero : Option ℤ → ℤ
or_zero none = pos 0
or_zero (some v) = v

-- `memory.Load`
unfoldable pub load : Setting → ℕ → Machine → Reply ℤ
unfolding lookup
load s address m =
    if ltb 0 s.max_memory && leb s.max_memory address
    then err memory_out_of_bounds
    else ok (or_zero (lookup address m.memory))
