-- ===== src/Avm/Perform.antt =====
-- avm/runtime.go: the `switch` of `ExecuteInstruction`, one action for each case; those of
-- the frames are in Avm/Frames.antt, those of the strings in Avm/StringOps.antt. The gas charge and the
-- step of the instruction counter, which follow the `switch`, are in Avm/Run.antt.
use august.Base.{ℕ, ◌%◌, Bool, true, false, Option, none, some, [], ◌∷◌, ltb, if◌then◌else◌, length}
use august.Base.Int.{ℤ, pos, negsuc, ◌+ℤ◌, ltb_ℤ, eqb_ℤ, wrap64, signed64}
use august.Base.Bytes.{Bytes, bytes_eq}
use august.Base.Dict.{lookup, insert, bytes_eq_inst}
use august.Config.{u64_mod}
use august.Types.Opcode.{Opcode}
use august.Types.Instruction.{Instruction, value_as_big, invalid_push}
use august.Avm.Word.{
  signed_add, signed_sub, signed_mul, signed_div, signed_lt, big_mod, word_and, word_or, to_uint64,
  to_int,
}
use august.Avm.Machine.{
  Setting, Machine, BlockchainContext, invalid_jump, invalid_opcode, invalid_swap_parameter,
  invalid_instruction, err, stopped, Action, Done, pure, raise, crash, ◌>>=◌, ◌>>◌, modify, push,
  pop, pop2, top, swap, store, load,
}
use august.Avm.Strings.{fill_bytes, read}
use august.Avm.Decimal.{print_nat, print_int}
use august.Avm.Frames.{load_local, store_local, call, return}
use august.Avm.StringOps.{
  strconcat, strlen, emitstr, strindex, strslice, strtoint, inttostr, push_string,
}

abbrev pub of_bool : Bool → ℤ
of_bool true = pos 1
of_bool false = pos 0

-- PUSH
unfoldable pub push_value : Setting → Instruction → Action Done
unfolding push value_as_big
push_value s i = elim (value_as_big i) [
  | none ↦ raise (invalid_instruction invalid_push)
  | some v ↦ push s v
]

-- The cases that pop two values `v1` and `v2` and push a function of `v2` and `v1`.
unfoldable pub binary : Setting → (ℤ → ℤ → ℤ) → Action Done
unfolding pop2 push
binary s f = do (v1, v2) ← pop2; push s (f v2 v1)

-- DUP
unfoldable pub dup : Setting → Action Done
unfolding top push
dup s = do v ← top; push s v

-- SWAP
unfoldable pub swap_top : Action Done
unfolding pop swap to_int
swap_top = do
  v ← pop
  λ m.
      if ltb_ℤ (to_int v) (pos (length m.stack))
      then swap (to_int v) m
      else (err invalid_swap_parameter, m)

-- The string that EQ reads at an operand below the bound, the empty one at any other.
abbrev operand_string : Setting → ℤ → Action Bytes
operand_string s v = if ltb (to_uint64 v) 1000000 then read s (to_uint64 v) else pure []

abbrev is_empty : Bytes → Bool
is_empty [] = true
is_empty (b ∷ bs) = false

-- EQ: by the contents where both operands are addresses of strings, else by the numbers.
abbrev equal : ℤ → ℤ → Bytes → Bytes → Bool
equal v1 v2 (a ∷ as') (b ∷ bs) = bytes_eq (a ∷ as') (b ∷ bs)
equal v1 v2 x y = eqb_ℤ v2 v1

unfoldable pub eq_values : Setting → Action Done
unfolding pop2 push read to_uint64 bytes_eq
eq_values s = do
  (v1, v2) ← pop2
  str1 ← operand_string s v1
  str2 ← operand_string s v2
  push s (of_bool (equal v1 v2 str1 str2))

-- ISZERO
unfoldable pub is_zero : Setting → Action Done
unfolding pop push
is_zero s = do v ← pop; push s (of_bool (eqb_ℤ v (pos 0)))

-- `target < 0 || target >= len(r.Instructions)`, else the jump.
abbrev jump_to : Setting → ℤ → Action Done
jump_to s (negsuc n) = raise invalid_jump
jump_to s (pos target) =
    if ltb target (length s.instructions)
    then modify (λ m. record m { ic = pos target })
    else raise invalid_jump

-- JUMP
unfoldable pub jump : Setting → Action Done
unfolding pop to_int
jump s = do target ← pop; jump_to s (to_int target)

abbrev pub next_ic : Machine → Machine
next_ic m = record m { ic = wrap64 (m.ic +ℤ pos 1) }

abbrev branch : Setting → ℤ → ℤ → Action Done
branch s (negsuc n) condition = raise invalid_jump
branch s (pos target) condition =
    if ltb target (length s.instructions)
    then (if eqb_ℤ condition (pos 1)
        then modify (λ m. record m { ic = pos target })
        else modify next_ic)
    else raise invalid_jump

-- JUMPC: the target is checked whatever the condition is. (If the first pop fails, so does the
-- second, and the first error is reported.)
unfoldable pub jumpc : Setting → Action Done
unfolding pop to_int ◌+ℤ◌
jumpc s = do target ← pop; condition ← pop; branch s (to_int target) condition

-- MSTORE
unfoldable pub mstore : Setting → Action Done
unfolding pop2 store to_uint64
mstore s = do (address, value) ← pop2; store s (to_uint64 address) value

-- MLOAD
unfoldable pub mload : Setting → Action Done
unfolding pop load push to_uint64
mload s = do address ← pop; v ← λ m. (load s (to_uint64 address) m, m); push s v

-- The content of the string at an address, or the text given in its place.
abbrev or_text : Bytes → Bytes → Bytes
or_text [] text = text
or_text (b ∷ bs) text = b ∷ bs

-- PSTORE
unfoldable pub pstore : Setting → Action Done
unfolding pop2 read to_uint64 print_nat print_int insert
pstore s = do
  (address, value) ← pop2
  key ← read s (to_uint64 address)
  content ← read s (to_uint64 value)
  modify (λ m. record m {
    persistent =
        insert (or_text key (print_nat (to_uint64 address))) (or_text content (print_int value))
          m.persistent;
  })

abbrev or_nothing : Option Bytes → Bytes
or_nothing none = []
or_nothing (some v) = v

-- PLOAD: a key that is not there gives the empty string.
unfoldable pub pload : Setting → Action Done
unfolding pop read push_string to_uint64 print_nat lookup
pload s = do
  address ← pop
  key ← read s (to_uint64 address)
  λ m.
      push_string s (or_nothing (lookup (or_text key (print_nat (to_uint64 address))) m.persistent))
        m

-- EMIT: only the panic of `FillBytes` is an effect.
unfoldable pub emit : Action Done
unfolding top fill_bytes
emit = do v ← top; elim (fill_bytes v) [ none ↦ crash | some b ↦ pure tt ]

-- BALANCE: a placeholder in the source too.
unfoldable pub balance : Setting → Action Done
unfolding pop push
balance s = do pop; push s (pos 0)

-- The `big.NewInt(int64(x))` of a `uint64` of the context.
abbrev pub of_uint64 : ℕ → ℤ
of_uint64 x = signed64 (x % u64_mod)

-- The cases that push a word of the context.
unfoldable pub push_context : Setting → (BlockchainContext → ℤ) → Action Done
unfolding push
push_context s f = push s (f s.context)

-- The `switch`.
unfoldable pub perform : Setting → Instruction → Opcode → Action Done
perform s i Opcode.noop = pure tt
perform s i Opcode.push = push_value s i
perform s i Opcode.pop = do pop; pure tt
perform s i Opcode.dup = dup s
perform s i Opcode.swap = swap_top
perform s i Opcode.add = binary s signed_add
perform s i Opcode.sub = binary s signed_sub
perform s i Opcode.mul = binary s signed_mul
perform s i Opcode.div = binary s signed_div
perform s i Opcode.modulo = binary s big_mod
perform s i Opcode.and = binary s word_and
perform s i Opcode.or = binary s word_or
perform s i Opcode.eq = eq_values s
perform s i Opcode.lt = binary s (λ a b. of_bool (signed_lt a b))
perform s i Opcode.gt = binary s (λ a b. of_bool (signed_lt b a))
perform s i Opcode.iszero = is_zero s
perform s i Opcode.jump = jump s
perform s i Opcode.jumpc = jumpc s
perform s i Opcode.mstore = mstore s
perform s i Opcode.mload = mload s
perform s i Opcode.pstore = pstore s
perform s i Opcode.pload = pload s
perform s i Opcode.load_local = load_local s
perform s i Opcode.store_local = store_local
perform s i Opcode.call = call
perform s i Opcode.return = return s
perform s i Opcode.stop = λ m. (stopped, m)
perform s i Opcode.emit = emit
perform s i Opcode.strconcat = strconcat s
perform s i Opcode.strlen = strlen s
perform s i Opcode.emitstr = emitstr s
perform s i Opcode.strindex = strindex s
perform s i Opcode.strslice = strslice s
perform s i Opcode.strtoint = strtoint s
perform s i Opcode.inttostr = inttostr s
perform s i Opcode.caller = push_context s (λ c. pos c.caller)
perform s i Opcode.address = push_context s (λ c. pos c.contract_address)
perform s i Opcode.balance = balance s
perform s i Opcode.origin = push_context s (λ c. pos c.origin)
perform s i Opcode.gasprice = push_context s (λ c. of_uint64 c.gas_price)
perform s i Opcode.callvalue = push_context s (λ c. of_uint64 c.call_value)
perform s i Opcode.timestamp = push_context s (λ c. of_uint64 c.timestamp)
perform s i Opcode.difficulty = push_context s (λ c. of_uint64 c.difficulty)
perform s i Opcode.blockhash = push_context s (λ c. pos c.block_hash)
perform s i Opcode.lastblockhash = push_context s (λ c. pos c.last_block_hash)
perform s i Opcode.coinbase = push_context s (λ c. pos c.coinbase)
perform s i Opcode.height = push_context s (λ c. of_uint64 c.block_number)
perform s i Opcode.gaslimit = push_context s (λ c. of_uint64 c.gas_limit)
perform s i Opcode.tsxdata = push_string s s.context.tsx_data
perform s i Opcode.pc = raise invalid_opcode
perform s i (Opcode.undefined n) = raise invalid_opcode
