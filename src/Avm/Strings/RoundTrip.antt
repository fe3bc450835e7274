-- ===== src/Avm/Strings/RoundTrip.antt =====
-- avm/runtime.go: a string that is stored in memory is read back.
use august.Base.{
  ℕ, zero, suc, ◌+◌, ◌-◌, ◌*◌, ◌%◌, ◌^◌, ◌≤◌, ◌<◌, ◌≡◌, refl, true, false, some, [], ◌∷◌, ◌++◌, ltb,
  leb, ◌==◌, ◌&&◌, if◌then◌else◌, arith, ap, ◌∙◌, length, take, drop, length-drop,
}
use august.Base.Int.{ℤ, pos}
use august.Base.Bytes.{Bytes, AllBytes, be_bytes, from_be}
use august.Base.Words.{be_bytes-from_be, from_be_bound}
use august.Base.Dict.{lookup, insert, nat_eq, lookup-insert_self, lookup-insert_ne}
use august.Config.{u64_mod}
use august.Avm.Word.{mod256, to_uint64}
use august.Avm.Machine.{Setting, Machine, ok, store, load}
use august.Avm.Strings.{
  whole, fill_bytes, read_chunks, chunk_count, read_string, ignore, padded, store_chunks,
  store_string,
}
use august.Avm.Strings.Padding.{length-padded_to, chunk_kept, AllBytes-drop, AllBytes-padded_to}

-- A store below the bound is a write of the map.
store_memory :
    (s : Setting) (address : ℕ) (v : ℤ) (m : Machine)
    → address < s.max_memory
    → (ignore (store s address v) m) ≡ record m { memory = insert address v m.memory }
unfolding store
store_memory s address v m h =
    let within : (ltb 0 s.max_memory && leb s.max_memory address) ≡ false = ground arith in
    rw (ignore, within) refl

load_memory :
    (s : Setting) (address : ℕ) (v : ℤ) (m : Machine)
    → address < s.max_memory
    → lookup address m.memory ≡ some v
    → load s address m ≡ ok v
unfolding load
load_memory s address v m h e =
    let within : (ltb 0 s.max_memory && leb s.max_memory address) ≡ false = ground arith in
    rw (within, e) refl

fill_bytes-from_be :
    (bs : Bytes) → length bs ≡ 32 → AllBytes bs → fill_bytes (pos (from_be 0 bs)) ≡ some bs
unfolding fill_bytes
fill_bytes-from_be bs n h =
    let bound : from_be 0 bs < 256 ^ 32 = rw n at (from_be_bound bs h) in
    let fits : ltb (from_be 0 bs) mod256 ≡ true = ground arith in
    let whole_text : be_bytes 32 (from_be 0 bs) ≡ bs = rw n at (be_bytes-from_be bs h) in
    rw (fits, whole_text) refl

-- The address after one below the bound does not wrap.
next_address : (address : ℕ) → address + 1 < u64_mod → (address + 1) % u64_mod ≡ address + 1
next_address address h = omega arith

module _ (s : Setting) (bound : s.max_memory < u64_mod) where
  store_chunks_step :
      (chunks address : ℕ) (bs : Bytes) (m : Machine)
      → address < s.max_memory
      → store_chunks s (suc chunks) address bs m
        ≡ store_chunks s chunks
            (address + 1)
            (drop 32 bs)
            (record m { memory = insert address (pos (from_be 0 (padded (take 32 bs)))) m.memory })
  unfolding store_chunks
  store_chunks_step chunks address bs m h =
      rw
        (
          store_memory s address (pos (from_be 0 (padded (take 32 bs)))) m h,
          next_address address (omega arith),
        )
        refl

  -- What is stored below the chunks stays.
  store_chunks_below :
      (chunks address : ℕ) (bs : Bytes) (m : Machine) (j : ℕ)
      → address + chunks ≤ s.max_memory
      → j < address
      → lookup j (store_chunks s chunks address bs m).memory ≡ lookup j m.memory
  unfolding store_chunks
  store_chunks_below zero address bs m j h k = refl
  store_chunks_below (suc chunks) address bs m j h k =
      let m₁ = record m {
        memory = insert address (pos (from_be 0 (padded (take 32 bs)))) m.memory;
      } in
      ap (λ x. lookup j x.memory) (store_chunks_step chunks address bs m (omega arith))
      ∙ store_chunks_below chunks (address + 1) (drop 32 bs) m₁ j (omega arith) (omega arith)
      ∙ lookup-insert_ne address j _ _ (omega arith)

  first_chunk :
      (chunks address : ℕ) (bs : Bytes) (m : Machine)
      → address + suc chunks ≤ s.max_memory
      → lookup address (store_chunks s (suc chunks) address bs m).memory
        ≡ some (pos (from_be 0 (padded (take 32 bs))))
  first_chunk chunks address bs m h =
      let m₁ = record m {
        memory = insert address (pos (from_be 0 (padded (take 32 bs)))) m.memory;
      } in
      ap (λ x. lookup address x.memory) (store_chunks_step chunks address bs m (omega arith))
      ∙ store_chunks_below chunks (address + 1) (drop 32 bs) m₁ address (omega arith) (omega arith)
      ∙ lookup-insert_self address _ _

  read_step :
      (m : Machine) (chunks address n : ℕ) (bs rest : Bytes)
      → address < s.max_memory
      → AllBytes bs
      → lookup address m.memory ≡ some (pos (from_be 0 (padded (take 32 bs))))
      → n ≡ length bs
      → read_chunks s m chunks (address + 1) (n - 32) ≡ whole rest
      → read_chunks s m (suc chunks) address n
        ≡ whole (
            (if ltb 32 (length bs)
              then padded (take 32 bs)
              else take (length bs) (padded (take 32 bs)))
            ++ rest)
  unfolding read_chunks
  read_step m chunks address n bs rest h all e same ih =
      let loaded = load_memory s address (pos (from_be 0 (padded (take 32 bs)))) m h e in
      let filled : fill_bytes (pos (from_be 0 (padded (take 32 bs)))) ≡ some (padded (take 32 bs)) =
        fill_bytes-from_be (padded (take 32 bs)) (length-padded_to 32 bs)
          (AllBytes-padded_to 32 bs all) in
      rw (read_chunks, loaded, filled, next_address address (omega arith), ih, same) refl

  read_back :
      (chunks address : ℕ) (bs : Bytes) (m m' : Machine)
      → address + chunks ≤ s.max_memory
      → length bs ≤ 32 * chunks
      → AllBytes bs
      → ((j : ℕ) → lookup j m'.memory ≡ lookup j (store_chunks s chunks address bs m).memory)
      → read_chunks s m' chunks address (length bs) ≡ whole bs
  unfolding read_chunks
  read_back zero address [] m m' h n all same = refl
  read_back zero address (b ∷ bs) m m' h n all same = absurd (omega arith)
  read_back (suc chunks) address bs m m' h n all same =
      let m₁ = record m {
        memory = insert address (pos (from_be 0 (padded (take 32 bs)))) m.memory;
      } in
      let step = store_chunks_step chunks address bs m (omega arith) in
      let ih =
        read_back chunks (address + 1) (drop 32 bs) m₁ m' (omega arith)
          (omega (arith, length-drop 32 bs)) (AllBytes-drop 32 bs all)
          (λ j. same j ∙ ap (λ x. lookup j x.memory) step) in
      read_step m' chunks address (length bs) bs (drop 32 bs) (omega arith) all
        (same address ∙ first_chunk chunks address bs m (omega arith)) refl
        (rw (length-drop 32 bs) at ih)
      ∙ ap whole (chunk_kept 32 bs)

  -- The memory after `storeStringInMemory`.
  stored : Bytes → Machine → Machine
  stored bs m =
      store_chunks s (chunk_count (length bs)) (m.next_memory_addr + 1) bs
        (record m { memory = insert m.next_memory_addr (pos (length bs)) m.memory })

  store_string_exact :
      (bs : Bytes) (m : Machine)
      → m.next_memory_addr < s.max_memory
      → store_string s bs m ≡ (
        ok m.next_memory_addr,
        record (stored bs m) {
          next_memory_addr = (m.next_memory_addr + 1 + chunk_count (length bs)) % u64_mod;
        },
      )
  unfolding store_string stored
  store_string_exact bs m h =
      rw
        (
          store_memory s m.next_memory_addr (pos (length bs)) m h,
          next_address m.next_memory_addr (omega arith),
        )
        refl

  read_text :
      (m : Machine) (address : ℕ) (bs : Bytes)
      → address < s.max_memory
      → length bs ≤ 1000000
      → lookup address m.memory ≡ some (pos (length bs))
      → read_chunks s m (chunk_count (length bs)) (address + 1) (length bs) ≡ whole bs
      → read_string s m address ≡ ok bs
  unfolding read_string to_uint64
  read_text m address [] h n e r = rw (read_string, load_memory s address (pos 0) m h e) refl
  read_text m address (b ∷ bs) h n e r =
      let word : length (b ∷ bs) % 2 ^ 64 ≡ length (b ∷ bs) = omega arith in
      let some_bytes : (length (b ∷ bs) == 0) ≡ false = ground arith in
      let short : ltb 1000000 (length (b ∷ bs)) ≡ false = ground arith in
      rw
        (
          read_string,
          load_memory s address (pos (length (b ∷ bs))) m h e,
          word,
          some_bytes,
          short,
          next_address address (omega arith),
          r,
        )
        refl

  -- In a memory with a bound, a string of at most a million bytes that fits between the next free
  -- address and the bound is stored there, can be read back from that address, leaves every address
  -- below it as it was, and moves the next free address behind itself.
  pub read_string-store_string :
      (bs : Bytes) (m : Machine)
      → AllBytes bs
      → length bs ≤ 1000000
      → m.next_memory_addr + 1 + chunk_count (length bs) ≤ s.max_memory
      → let (r, after) = store_string s bs m in
        (r ≡ ok m.next_memory_addr)
        × (read_string s after m.next_memory_addr ≡ ok bs)
        × ((j : ℕ) → j < m.next_memory_addr → lookup j after.memory ≡ lookup j m.memory)
        × (after.next_memory_addr ≡ m.next_memory_addr + 1 + chunk_count (length bs))
  unfolding stored
  read_string-store_string bs m all n h =
      let a = m.next_memory_addr in
      let c = chunk_count (length bs) in
      let m₁ = record m { memory = insert a (pos (length bs)) m.memory } in
      let after = record (stored bs m) { next_memory_addr = (a + 1 + c) % u64_mod } in
      let enough : length bs ≤ 32 * c = omega arith in
      let header =
        store_chunks_below c (a + 1) bs m₁ a h (omega arith) ∙ lookup-insert_self a _ _ in
      rw (store_string_exact bs m (omega arith)) (
        refl,
        read_text after a bs (omega arith) n header
            (read_back c (a + 1) bs m₁ after h enough all (λ j. refl)),
        λ j k.
            store_chunks_below c (a + 1) bs m₁ j h (omega arith)
            ∙ lookup-insert_ne a j _ _ (omega arith),
        omega arith,
      )
