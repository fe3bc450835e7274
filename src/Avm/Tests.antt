-- ===== src/Avm/Tests.antt =====
-- Runs of the machine on concrete programs, and the instances of its theorems.
use august.Base.{◌<◌, ℕ, ◌≡◌, refl, Option, none, some, List, [], ◌∷◌, suc, ◌-◌, ◌^◌, arith}
use august.Base.Int.{ℤ, pos, negsuc, ◌+ℤ◌}
use august.Base.Bytes.{Bytes, AllBytes, ascii}
use august.Types.Opcode.{Opcode, price}
use august.Types.Instruction.{Instruction}
use august.Avm.Machine.{BlockchainContext, Setting, Machine, AvmError, ok, load, store}
use august.Avm.Strings.{store_string, store_chunks, read_chunks, read_string, fill_bytes}
use august.Avm.Strings.RoundTrip.{read_string-store_string}
use august.Base.Dict.{lookup, nat_eq}
use august.Avm.Word.{to_uint64, signed_sub, signed_mul, signed_div}
use august.Avm.Word.Signed.{signed_mul_mixed}
use august.Avm.Run.Gas.{UsesAtMost, start_execution_ends}
use august.Avm.StringOps.{strconcat, strlen, strtoint, push_string}
use august.Avm.Perform.{push_value, binary, jump, emit, dup, eq_values}
use august.Avm.Run.{
  Runtime, new_runtime, Outcome, returns, panics, start_execution, has_more, is_clean,
}

abbrev context : BlockchainContext
context = record {
  block_number = 1;
  block_hash = 0;
  last_block_hash = 0;
  timestamp = 1640995200;
  difficulty = 1000;
  gas_limit = 1000000;
  coinbase = 0;
  chain_id = 1;
  caller = 77;
  origin = 77;
  gas_price = 1;
  call_value = 5;
  contract_address = 99;
  tsx_data = ascii "buy";
  deployer = 0;
  deployment_time = 1640995200;
  deployment_gas = 1;
}

abbrev setting : List Instruction → Setting
setting code = record {
  instructions = code;
  context = context;
  max_stack = 10000;
  max_memory = 10000;
  max_alloc = 2 ^ 48;
}

abbrev op : Opcode → Instruction
op o = record { opcode = o; value = none }

abbrev lit : Bytes → Instruction
lit text = record { opcode = Opcode.push; value = some text }

-- The final stack, the error and the gas of a run.
data Seen : Type 0 where
  seen : Option AvmError → List ℤ → ℕ → Seen
  crashed : Seen
  no_fuel : Seen

abbrev see : Option Outcome → Seen
see none = no_fuel
see (some panics) = crashed
see (some (returns e r)) = seen e r.machine.stack r.gas_used

run_code : List Instruction → ℕ → Seen
unfolding start_execution new_runtime has_more is_clean price push_value binary jump emit dup
    eq_values ◌+ℤ◌ signed_sub signed_div strconcat strlen strtoint push_string store_string
    store_chunks read_chunks read_string load store fill_bytes to_uint64
run_code code gas = see (start_execution (setting code) (suc gas) 0 (new_runtime gas 0 []))

-- 2 - 5 is 2^256 - 3 as a word.
subtracts :
    run_code (lit (ascii "0x2") ∷ lit (ascii "5") ∷ op Opcode.sub ∷ []) 100
    ≡ seen none (pos (2 ^ 256 - 3) ∷ []) 9
unfolding run_code
subtracts = refl

-- The division is the Euclidean one: -7 / 2 is -4.
divides :
    run_code
      (lit (ascii "0") ∷ lit (ascii "7") ∷ op Opcode.sub ∷ lit (ascii "2") ∷ op Opcode.div ∷ [])
      100
    ≡ seen none (pos (2 ^ 256 - 4) ∷ []) 17
unfolding run_code
divides = refl

runs_out :
    run_code (lit (ascii "0") ∷ op Opcode.jump ∷ []) 40
    ≡ seen (some AvmError.out_of_gas) (pos 0 ∷ []) 36
unfolding run_code
runs_out = refl

-- The transaction data as a string, its length, and its first character.
reads_data :
    run_code (op Opcode.tsxdata ∷ op Opcode.dup ∷ op Opcode.strlen ∷ op Opcode.stop ∷ []) 100
    ≡ seen (some AvmError.program_stopped) (pos 3 ∷ pos 100 ∷ []) 15
unfolding run_code
reads_data = refl

-- A word of more than 256 bits is pushed, and EMIT cannot write it into 32 bytes.
emits_wide :
    run_code
      (lit (ascii "0x10000000000000000000000000000000000000000000000000000000000000000")
        ∷ op Opcode.emit
        ∷ [])
      1000
    ≡ crashed
unfolding run_code
emits_wide = refl

concatenates :
    run_code
      (op Opcode.tsxdata
        ∷ op Opcode.tsxdata
        ∷ op Opcode.strconcat
        ∷ op Opcode.tsxdata
        ∷ op Opcode.eq
        ∷ op Opcode.tsxdata
        ∷ op Opcode.strtoint
        ∷ [])
      1000
    ≡ seen (some AvmError.not_a_number) (pos 0 ∷ []) 86
unfolding run_code
concatenates = refl

-- A loop without end.
abbrev forever : Setting
forever = setting (lit (ascii "0") ∷ op Opcode.jump ∷ [])

start_execution_ends_example :
    (o : Outcome) × (start_execution forever 501 0 (new_runtime 500 0 []) ≡ some o)
    × UsesAtMost 500 o
start_execution_ends_example = start_execution_ends forever 500 0 [] (omega arith)

abbrev starting : Runtime
starting = record (new_runtime 100 0 []) { gas_available = 40; gas_used = 60 }

-- 2^255 - 1 times -3 leaves the words.
signed_mul_mixed_example : signed_mul (pos (2 ^ 255 - 1)) (pos (2 ^ 256 - 3)) ≡ negsuc (2 ^ 255 - 4)
signed_mul_mixed_example =
    signed_mul_mixed (2 ^ 255 - 1) 2 (omega arith) (omega arith) (omega arith)

abbrev greeting : Bytes
greeting = ascii "a string that is longer than one chunk of memory"

abbrev empty_machine : Machine
empty_machine = (new_runtime 100 0 []).machine

greeting-AllBytes : AllBytes greeting
greeting-AllBytes = omega arith

read_string-store_string_example :
    let (r, after) = store_string (setting []) greeting empty_machine in
    (r ≡ ok 100)
    × (read_string (setting []) after 100 ≡ ok greeting)
    × ((j : ℕ) → j < 100 → lookup j after.memory ≡ lookup j empty_machine.memory)
    × (after.next_memory_addr ≡ 103)
unfolding new_runtime
read_string-store_string_example =
    read_string-store_string (setting []) (omega arith) greeting empty_machine greeting-AllBytes
      (omega arith) (omega arith)
