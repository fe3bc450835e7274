-- ===== src/Types/Names.antt =====
-- types/bytecode.go: the names of the opcodes.
use august.Base.{ℕ, [], ◌∷◌, ◌++◌, ◌+◌}
use august.Base.Bytes.{Bytes, ascii}
use august.Base.Dict.{Dict}
use august.Types.Opcode.{
  Opcode, pc, undefined, noop, push, pop, dup, swap, add, sub, mul, div, modulo, and, or, eq, lt,
  gt, iszero, jump, jumpc, mstore, mload, pload, pstore, load_local, store_local, call, return,
  stop, emit, strconcat, strlen, emitstr, strindex, strslice, strtoint, inttostr, caller, address,
  balance, origin, gasprice, callvalue, timestamp, difficulty, blockhash, lastblockhash, coinbase,
  height, gaslimit, tsxdata,
}
use august.Avm.Decimal.{print_nat}

-- A value without an entry, as `String` writes it.
abbrev unknown_name : ℕ → Bytes
unknown_name n = ascii "UNKNOWN_OPCODE(" ++ print_nat n ++ ascii ")"

-- `OPCODE.String`. The table has no entry for PC.
unfoldable pub opcode_name : Opcode → Bytes
unfolding print_nat
opcode_name noop = ascii "NOOP"
opcode_name push = ascii "PUSH"
opcode_name pop = ascii "POP"
opcode_name dup = ascii "DUP"
opcode_name swap = ascii "SWAP"
opcode_name add = ascii "ADD"
opcode_name sub = ascii "SUB"
opcode_name mul = ascii "MUL"
opcode_name div = ascii "DIV"
opcode_name modulo = ascii "MOD"
opcode_name and = ascii "AND"
opcode_name or = ascii "OR"
opcode_name eq = ascii "EQ"
opcode_name lt = ascii "LT"
opcode_name gt = ascii "GT"
opcode_name iszero = ascii "ISZERO"
opcode_name jump = ascii "JUMP"
opcode_name jumpc = ascii "JUMPC"
opcode_name mstore = ascii "MSTORE"
opcode_name mload = ascii "MLOAD"
opcode_name pload = ascii "PLOAD"
opcode_name pstore = ascii "PSTORE"
opcode_name load_local = ascii "LOAD_LOCAL"
opcode_name store_local = ascii "STORE_LOCAL"
opcode_name call = ascii "CALL"
opcode_name return = ascii "RETURN"
opcode_name stop = ascii "STOP"
opcode_name emit = ascii "EMIT"
opcode_name strconcat = ascii "STRCONCAT"
opcode_name strlen = ascii "STRLEN"
opcode_name emitstr = ascii "EMITSTR"
opcode_name strindex = ascii "STRINDEX"
opcode_name strslice = ascii "STRSLICE"
opcode_name strtoint = ascii "STRTOINT"
opcode_name inttostr = ascii "INTTOSTR"
opcode_name caller = ascii "CALLER"
opcode_name address = ascii "ADDRESS"
opcode_name balance = ascii "BALANCE"
opcode_name origin = ascii "ORIGIN"
opcode_name gasprice = ascii "GASPRICE"
opcode_name callvalue = ascii "CALLVALUE"
opcode_name timestamp = ascii "TIMESTAMP"
opcode_name difficulty = ascii "DIFFICULTY"
opcode_name blockhash = ascii "BLOCKHASH"
opcode_name lastblockhash = ascii "LASTBLOCKHASH"
opcode_name coinbase = ascii "COINBASE"
opcode_name height = ascii "HEIGHT"
opcode_name gaslimit = ascii "GASLIMIT"
opcode_name tsxdata = ascii "TSXDATA"
opcode_name pc = unknown_name 1
opcode_name (undefined n) = unknown_name (50 + n)

-- `OpcodeMap`
unfoldable pub opcode_map : Dict Bytes Opcode
opcode_map =
    (ascii "NOOP", noop)
    ∷ (ascii "PUSH", push)
    ∷ (ascii "POP", pop)
    ∷ (ascii "DUP", dup)
    ∷ (ascii "SWAP", swap)
    ∷ (ascii "ADD", add)
    ∷ (ascii "SUB", sub)
    ∷ (ascii "MUL", mul)
    ∷ (ascii "DIV", div)
    ∷ (ascii "MOD", modulo)
    ∷ (ascii "AND", and)
    ∷ (ascii "OR", or)
    ∷ (ascii "EQ", eq)
    ∷ (ascii "LT", lt)
    ∷ (ascii "GT", gt)
    ∷ (ascii "ISZERO", iszero)
    ∷ (ascii "JUMP", jump)
    ∷ (ascii "JUMPC", jumpc)
    ∷ (ascii "MSTORE", mstore)
    ∷ (ascii "MLOAD", mload)
    ∷ (ascii "PLOAD", pload)
    ∷ (ascii "PSTORE", pstore)
    ∷ (ascii "LOAD_LOCAL", load_local)
    ∷ (ascii "STORE_LOCAL", store_local)
    ∷ (ascii "CALL", call)
    ∷ (ascii "RETURN", return)
    ∷ (ascii "STOP", stop)
    ∷ (ascii "EMIT", emit)
    ∷ (ascii "STRCONCAT", strconcat)
    ∷ (ascii "STRLEN", strlen)
    ∷ (ascii "EMITSTR", emitstr)
    ∷ (ascii "STRINDEX", strindex)
    ∷ (ascii "STRSLICE", strslice)
    ∷ (ascii "STRTOINT", strtoint)
    ∷ (ascii "INTTOSTR", inttostr)
    ∷ (ascii "CALLER", caller)
    ∷ (ascii "ADDRESS", address)
    ∷ (ascii "BALANCE", balance)
    ∷ (ascii "ORIGIN", origin)
    ∷ (ascii "GASPRICE", gasprice)
    ∷ (ascii "CALLVALUE", callvalue)
    ∷ (ascii "TIMESTAMP", timestamp)
    ∷ (ascii "DIFFICULTY", difficulty)
    ∷ (ascii "BLOCKHASH", blockhash)
    ∷ (ascii "LASTBLOCKHASH", lastblockhash)
    ∷ (ascii "COINBASE", coinbase)
    ∷ (ascii "HEIGHT", height)
    ∷ (ascii "GASLIMIT", gaslimit)
    ∷ (ascii "TSXDATA", tsxdata)
    ∷ []
