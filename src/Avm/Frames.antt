-- ===== src/Avm/Frames.antt =====
-- avm/runtime.go: the cases of LOAD_LOCAL, STORE_LOCAL, CALL and RETURN.
use august.Base.{ℕ, suc, ◌-◌, List, [], ◌∷◌, ◌++◌, length, get_or, set, replicate}
use august.Base.Int.{ℤ, pos, negsuc, ◌+ℤ◌, ◌-ℤ◌, wrap64, sub_ℕ}
use august.Base.Dict.{bytes_eq_inst}
use august.Avm.Word.{to_int}
use august.Avm.Machine.{
  Setting, Machine, invalid_offset, ok, err, stopped, Action, Done, crash, ◌>>=◌, ◌>>◌, modify,
  push, pop,
}

-- The loop that appends zeros until there is an entry at `index`, counted from the bottom.
-- It does not look at the size bound.
unfoldable pub expand : ℕ → List ℤ → List ℤ
expand index st = replicate (suc index - length st) (pos 0) ++ st

-- The place from the top of the entry at `index` from the bottom.
abbrev pub from_top : ℕ → List ℤ → ℕ
from_top index st = length st - 1 - index

abbrev load_at : Setting → ℤ → Action Done
load_at s (negsuc n) m = (err invalid_offset, m)
load_at s (pos index) m =
    let st = expand index m.stack in
    push s (get_or st (from_top index st) (pos 0)) (record m { stack = st })

-- LOAD_LOCAL
unfoldable pub load_local : Setting → Action Done
unfolding pop push expand to_int ◌+ℤ◌
load_local s = do offset ← pop; λ m. load_at s (wrap64 (m.frame_pointer +ℤ to_int offset)) m

abbrev store_at : ℤ → ℤ → Action Done
store_at (negsuc n) value m = (err invalid_offset, m)
store_at (pos index) value m =
    let st = expand index m.stack in (ok tt, record m { stack = set st (from_top index st) value })

-- STORE_LOCAL
unfoldable pub store_local : Action Done
unfolding pop expand to_int ◌+ℤ◌
store_local = do
  offset ← pop
  value ← pop
  λ m. store_at (wrap64 (m.frame_pointer +ℤ to_int offset)) value m

-- CALL: two parameters are assumed. `ic` gets the address less one, since it is stepped below.
unfoldable pub call : Action Done
unfolding pop to_int ◌+ℤ◌ ◌-ℤ◌
call = do
  address ← pop
  modify (λ m. record m {
    frame_stack = m.frame_pointer ∷ m.frame_stack;
    frame_pointer = sub_ℕ (length m.stack) 2;
    return_stack = wrap64 (m.ic +ℤ pos 1) ∷ m.return_stack;
    ic = wrap64 (to_int address -ℤ pos 1);
  })

abbrev restore_frame : List ℤ → Machine → Machine
restore_frame [] m = m
restore_frame (fp ∷ rest) m = record m { frame_pointer = fp; frame_stack = rest }

abbrev drop_two : List ℤ → List ℤ
drop_two (a ∷ b ∷ rest) = rest
drop_two st = []

abbrev return_to : List ℤ → Action Done
return_to [] = crash
return_to (address ∷ rest) =
    modify (λ m. record m { return_stack = rest; ic = wrap64 (address -ℤ pos 1) })

abbrev return_from : Setting → List ℤ → Action Done
return_from s [] m = (stopped, m)
return_from s (address ∷ rest) m =
    (do
      value ← pop
      modify (λ m'. restore_frame m'.frame_stack m')
      modify (λ m'. record m' { stack = drop_two m'.stack })
      push s value
      return_to (address ∷ rest))
      m

-- RETURN: with no address to return to, `return ErrProgramStopped`.
unfoldable pub return : Setting → Action Done
unfolding pop push ◌-ℤ◌
return s m = return_from s m.return_stack m
