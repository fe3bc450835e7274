-- ===== src/Avm/StringOps.antt =====
-- avm/runtime.go: the cases of the string instructions.
use august.Base.{
  ℕ, zero, suc, ◌+◌, ◌-◌, ◌/◌, ◌%◌, none, some, [], ◌∷◌, ◌++◌, ltb, if◌then◌else◌, length, take,
  drop, get_or, ◌||◌,
}
use august.Base.Int.{ℤ, pos, negsuc, eqb_ℤ}
use august.Base.Bytes.{Bytes, from_be}
use august.Config.{u64_mod}
use august.Avm.Word.{to_uint64, to_int64}
use august.Avm.Machine.{
  Setting, Machine, AvmError, invalid_string, not_a_number, index_out_of_range, Reply, ok, err,
  panic, Action, Done, pure, raise, crash, ◌>>=◌, ◌>>◌, push, pop, store, load,
}
use august.Avm.Strings.{
  Chunks, whole, missing, too_wide, chunk_count, read_chunks, read, store_string, padded,
}
use august.Avm.Decimal.{parse_int, print_int}

abbrev pub swallowed : Reply Done → Reply Done
swallowed (err e) = ok tt
swallowed r = r

-- In the case of STRCONCAT `len1Val, err := …` declares an `err` of its own, so what is assigned
-- to it below that line never reaches the `err` that the function returns.
abbrev pub shadowed : Action Done → Action Done
shadowed x m = let (r, m') = x m in (swallowed r, m')

abbrev load_as : Setting → ℕ → AvmError → Reply ℤ → Reply ℕ
load_as s address e (ok v) = ok (to_uint64 v)
load_as s address e panic = panic
load_as s address e _ = err e

-- The length word of the string at an address.
unfoldable pub load_length : Setting → ℕ → Action ℕ
unfolding load to_uint64
load_length s address m = (load_as s address invalid_string (load s address m), m)

-- The bytes of a string of `n` bytes, with room made for them first.
unfoldable pub string_bytes : Setting → ℕ → ℕ → Machine → Chunks
unfolding read_chunks
string_bytes s address n m =
    if ltb s.max_alloc n
    then too_wide
    else read_chunks s m (chunk_count n) ((address + 1) % u64_mod) n

-- The loop that stores the result of STRCONCAT, which stops at the first store that fails.
unfoldable pub put_chunks : Setting → ℕ → ℕ → Bytes → Action Done
unfolding store from_be
put_chunks s zero address bs = pure tt
put_chunks s (suc chunks) address bs =
    store s address (pos (from_be 0 (padded (take 32 bs))))
    >> put_chunks s chunks ((address + 1) % u64_mod) (drop 32 bs)

-- The part of STRCONCAT that allocates and writes the result.
unfoldable pub write_result : Setting → Bytes → Action Done
unfolding store put_chunks push
write_result s bs m =
    let address = m.next_memory_addr in
    let n = length bs in
    (do
      store s address (pos n)
      put_chunks s (chunk_count n) ((address + 1) % u64_mod) bs
      λ m'. (
        ok tt,
        record m' { next_memory_addr = (m'.next_memory_addr + 1 + chunk_count n) % u64_mod },
      )
      push s (pos address))
      m

-- The second loop runs even where the first one has met a missing chunk.
abbrev join : Setting → Chunks → Chunks → Action Done
join s too_wide b = crash
join s a too_wide = crash
join s (whole a) (whole b) = write_result s (a ++ b)
join s a b = raise invalid_string

-- STRCONCAT
unfoldable pub strconcat : Setting → Action Done
unfolding pop load_length string_bytes write_result to_uint64
strconcat s = do
  ptr2 ← pop
  ptr1 ← pop
  shadowed (do
    len1 ← load_length s (to_uint64 ptr1)
    len2 ← load_length s (to_uint64 ptr2)
    λ m. join s (string_bytes s (to_uint64 ptr1) len1 m) (string_bytes s (to_uint64 ptr2) len2 m) m)

-- STRLEN
unfoldable pub strlen : Setting → Action Done
unfolding pop load push to_uint64
strlen s = do
  ptr ← pop
  v ← λ m.
      (elim (load s (to_uint64 ptr) m) [ ok v ↦ ok v | panic ↦ panic | _ ↦ err invalid_string ], m)
  push s v

abbrev emitted : Chunks → Reply Done
emitted (whole bs) = ok tt
emitted missing = err invalid_string
emitted too_wide = panic

-- EMITSTR
unfoldable pub emitstr : Setting → Action Done
unfolding pop load_length string_bytes to_uint64
emitstr s = do
  ptr ← pop
  n ← load_length s (to_uint64 ptr)
  λ m. (emitted (string_bytes s (to_uint64 ptr) n m), m)

-- `string(b)` of a byte: the UTF-8 text of the code point with that number.
unfoldable pub string_of_byte : ℕ → Bytes
string_of_byte b = if ltb b 128 then b ∷ [] else (192 + b / 64) ∷ (128 + b % 64) ∷ []

-- `storeStringInMemory`, then the push of the address.
unfoldable pub push_string : Setting → Bytes → Action Done
unfolding store_string push
push_string s bs = do address ← store_string s bs; push s (pos address)

abbrev char_at : Setting → Bytes → ℤ → Action Done
char_at s content (negsuc n) = raise index_out_of_range
char_at s content (pos n) =
    if ltb n (length content)
    then push_string s (string_of_byte (get_or content n 0))
    else raise index_out_of_range

-- STRINDEX
unfoldable pub strindex : Setting → Action Done
unfolding pop read push_string string_of_byte to_int64 to_uint64
strindex s = do
  index ← pop
  address ← pop
  content ← read s (to_uint64 address)
  char_at s content (to_int64 index)

-- `stringContent[start:end]` under the checks of STRSLICE.
abbrev slice : Setting → Bytes → ℤ → ℤ → Action Done
slice s content (negsuc a) b = raise index_out_of_range
slice s content (pos a) (negsuc b) = raise index_out_of_range
slice s content (pos a) (pos b) =
    if ltb (length content) a || ltb b a || ltb (length content) b
    then raise index_out_of_range
    else push_string s (take (b - a) (drop a content))

-- 999999 stands for the length.
abbrev slice_end : Bytes → ℤ → ℤ
slice_end content b = if eqb_ℤ b (pos 999999) then pos (length content) else b

-- STRSLICE
unfoldable pub strslice : Setting → Action Done
unfolding pop read push_string to_int64 to_uint64
strslice s = do
  end ← pop
  start ← pop
  address ← pop
  content ← read s (to_uint64 address)
  slice s content (to_int64 start) (slice_end content (to_int64 end))

-- STRTOINT
unfoldable pub strtoint : Setting → Action Done
unfolding pop read push parse_int to_uint64
strtoint s = do
  address ← pop
  content ← read s (to_uint64 address)
  elim (parse_int content) [ none ↦ raise not_a_number | some v ↦ push s v ]

-- INTTOSTR
unfoldable pub inttostr : Setting → Action Done
unfolding pop push_string print_int to_int64
inttostr s = do v ← pop; push_string s (print_int (to_int64 v))
