-- ===== src/Avm/Strings.antt =====
-- avm/runtime.go: strings in the machine's memory, a length and then chunks of 32 bytes.
pub mod Padding
pub mod RoundTrip
use august.Base.{
  ℕ, zero, suc, ◌+◌, ◌-◌, ◌/◌, ◌%◌, Option, none, some, [], ◌++◌, ltb, ◌==◌, if◌then◌else◌, length,
  take, drop, replicate,
}
use august.Base.Int.{ℤ, pos, abs}
use august.Base.Bytes.{Bytes, be_bytes, from_be}
use august.Config.{u64_mod}
use august.Avm.Word.{to_uint64, mod256}
use august.Avm.Machine.{Setting, Machine, Reply, ok, panic, Action, Done, store, load}

-- `FillBytes` on 32 bytes: `none` is its panic on a number of more than 256 bits.
unfoldable pub fill_bytes : ℤ → Option Bytes
unfolding be_bytes
fill_bytes x = if ltb (abs x) mod256 then some (be_bytes 32 (abs x)) else none

-- What a loop over the chunks ends with: all bytes, a chunk that cannot be loaded (with the bytes
-- before it dropped, since no caller uses them), or the panic.
pub data Chunks : Type 0 where
  whole : Bytes → Chunks
  missing : Chunks
  too_wide : Chunks

abbrev prepend : Bytes → Chunks → Chunks
prepend b (whole bs) = whole (b ++ bs)
prepend b missing = missing
prepend b too_wide = too_wide

abbrev add_chunk : Option Bytes → ℕ → Chunks → Chunks
add_chunk none remaining rest = too_wide
add_chunk (some b) remaining rest = prepend (if ltb 32 remaining then b else take remaining b) rest

-- The loop over `chunks` chunks from `address`, of which `remaining` bytes are wanted.
unfoldable pub read_chunks : Setting → Machine → ℕ → ℕ → ℕ → Chunks
read_chunks s m zero address remaining = whole []
read_chunks s m (suc chunks) address remaining =
    let rest = read_chunks s m chunks ((address + 1) % u64_mod) (remaining - 32) in
    elim (load s address m) [
      | ok v ↦ elim (fill_bytes v) [ none ↦ too_wide | some b ↦ add_chunk (some b) remaining rest ]
      | _ ↦ missing
    ]

-- `(length + 31) / 32` on `uint64`
abbrev pub chunk_count : ℕ → ℕ
chunk_count n = (n + 31) % u64_mod / 32

abbrev or_empty : Chunks → Reply Bytes
or_empty (whole bs) = ok bs
or_empty missing = ok []
or_empty too_wide = panic

-- `readStringFromMemory`: every failure but the panic of `FillBytes` gives the empty string.
unfoldable pub read_string : Setting → Machine → ℕ → Reply Bytes
read_string s m address = elim (load s address m) [
  | ok v ↦
      if to_uint64 v == 0
      then ok []
      else if ltb 1000000 (to_uint64 v)
      then ok []
      else or_empty
          (read_chunks s m (chunk_count (to_uint64 v)) ((address + 1) % u64_mod) (to_uint64 v))
  | _ ↦ ok []
]

-- `readStringFromMemory` as a step of an instruction.
unfoldable pub read : Setting → ℕ → Action Bytes
unfolding read_string
read s address m = (read_string s m address, m)

-- A call of `memory.Store` whose error nobody reads.
abbrev pub ignore : Action Done → Machine → Machine
ignore x m = (x m).1

-- 32 bytes, padded with zeros at the end.
abbrev pub padded : Bytes → Bytes
padded b = b ++ replicate (32 - length b) 0

unfoldable pub store_chunks : Setting → ℕ → ℕ → Bytes → Machine → Machine
store_chunks s zero address bs m = m
store_chunks s (suc chunks) address bs m =
    store_chunks s chunks ((address + 1) % u64_mod) (drop 32 bs)
      (ignore (store s address (pos (from_be 0 (padded (take 32 bs))))) m)

-- `storeStringInMemory`: the address is returned even where the stores fail.
unfoldable pub store_string : Setting → Bytes → Action ℕ
store_string s bs m =
    let n = length bs in
    let address = m.next_memory_addr in
    let m₁ = ignore (store s address (pos n)) m in
    let m₂ = store_chunks s (chunk_count n) ((address + 1) % u64_mod) bs m₁ in
    (ok address, record m₂ { next_memory_addr = (address + 1 + chunk_count n) % u64_mod })
