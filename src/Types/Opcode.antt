-- ===== src/Types/Opcode.antt =====
-- types/bytecode.go: the opcodes, their byte values and their gas prices. `modulo` is MOD;
-- `undefined n` is the value LAST + n, which names no opcode.
use august.Base.{ℕ, ◌+◌, ◌≤◌, ◌≢◌, refl, Bool, true, false, arith}

pub data Opcode : Type 0 where
  noop pc push pop dup swap add sub mul div : Opcode
  modulo and or eq lt gt iszero jump jumpc mstore : Opcode
  mload pstore pload load_local store_local call return stop emit strconcat : Opcode
  strlen emitstr strindex strslice strtoint inttostr caller address balance origin : Opcode
  gasprice callvalue timestamp difficulty blockhash lastblockhash coinbase height gaslimit tsxdata :
      Opcode
  undefined : ℕ → Opcode

-- The byte that the `iota` of the constants gives.
unfoldable pub to_byte : Opcode → ℕ
to_byte noop = 0
to_byte pc = 1
to_byte push = 2
to_byte pop = 3
to_byte dup = 4
to_byte swap = 5
to_byte add = 6
to_byte sub = 7
to_byte mul = 8
to_byte div = 9
to_byte modulo = 10
to_byte and = 11
to_byte or = 12
to_byte eq = 13
to_byte lt = 14
to_byte gt = 15
to_byte iszero = 16
to_byte jump = 17
to_byte jumpc = 18
to_byte mstore = 19
to_byte mload = 20
to_byte pstore = 21
to_byte pload = 22
to_byte load_local = 23
to_byte store_local = 24
to_byte call = 25
to_byte return = 26
to_byte stop = 27
to_byte emit = 28
to_byte strconcat = 29
to_byte strlen = 30
to_byte emitstr = 31
to_byte strindex = 32
to_byte strslice = 33
to_byte strtoint = 34
to_byte inttostr = 35
to_byte caller = 36
to_byte address = 37
to_byte balance = 38
to_byte origin = 39
to_byte gasprice = 40
to_byte callvalue = 41
to_byte timestamp = 42
to_byte difficulty = 43
to_byte blockhash = 44
to_byte lastblockhash = 45
to_byte coinbase = 46
to_byte height = 47
to_byte gaslimit = 48
to_byte tsxdata = 49
to_byte (undefined n) = 50 + n

-- `OPCODE.Valid`
unfoldable pub valid : Opcode → Bool
valid (undefined n) = false
valid _ = true

-- `OPCODE.Price`. The table has no entry for PC, so its price is 0; past the table it is 65535.
unfoldable pub price : Opcode → ℕ
price noop = 1
price pc = 0
price push = 3
price pop = 2
price dup = 3
price swap = 3
price add = 3
price sub = 3
price mul = 5
price div = 5
price modulo = 5
price and = 3
price or = 3
price eq = 3
price lt = 3
price gt = 3
price iszero = 3
price jump = 8
price jumpc = 10
price mstore = 20
price mload = 15
price pstore = 1000
price pload = 1000
price load_local = 3
price store_local = 3
price call = 10
price return = 8
price stop = 0
price emit = 100
price strconcat = 50
price strlen = 10
price emitstr = 150
price strindex = 20
price strslice = 30
price strtoint = 25
price inttostr = 25
price caller = 2
price address = 2
price balance = 400
price origin = 2
price gasprice = 2
price callvalue = 2
price timestamp = 2
price difficulty = 2
price blockhash = 20
price lastblockhash = 20
price coinbase = 2
price height = 2
price gaslimit = 2
price tsxdata = 2
price (undefined n) = 65535

-- Only STOP, which ends the program, and PC, which no case of the machine runs, are free.
pub price_positive : (op : Opcode) → op ≢ stop → op ≢ pc → 1 ≤ price op
unfolding price
price_positive stop h k = absurd (h refl)
price_positive pc h k = absurd (k refl)
price_positive _ h k = omega arith

pub price_small : (op : Opcode) → price op ≤ 65535
unfolding price
price_small noop = omega arith
price_small _ = omega arith
