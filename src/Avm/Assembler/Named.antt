-- ===== src/Avm/Assembler/Named.antt =====
-- types/bytecode.go: the names of the opcodes, as the assembler reads them.
use august.Base.{◌≡◌, ◌≢◌, refl, Bool, true, false, some}
use august.Base.Bytes.{ascii, bytes_eq}
use august.Base.Dict.{lookup, bytes_eq_inst}
use august.Types.Opcode.{
  Opcode, pc, undefined, noop, push, pop, dup, swap, add, sub, mul, div, modulo, and, or, eq, lt,
  gt, iszero, jump, jumpc, mstore, mload, pload, pstore, load_local, store_local, call, return,
  stop, emit, strconcat, strlen, emitstr, strindex, strslice, strtoint, inttostr, caller, address,
  balance, origin, gasprice, callvalue, timestamp, difficulty, blockhash, lastblockhash, coinbase,
  height, gaslimit, tsxdata,
}
use august.Types.Names.{opcode_name, opcode_map}
use august.Avm.Assembler.{is_space}
use august.Avm.Assembler.Scan.{in_word, all_in_word, IsWord}

-- An opcode that the table has a name for: all but PC and the undefined ones.
unfoldable pub is_named : Opcode → Bool
is_named pc = false
is_named (undefined n) = false
is_named op = true

pub named-IsWord : (op : Opcode) → is_named op ≡ true → IsWord (opcode_name op)
unfolding is_named opcode_name all_in_word in_word is_space
named-IsWord noop h = refl
named-IsWord push h = refl
named-IsWord pop h = refl
named-IsWord dup h = refl
named-IsWord swap h = refl
named-IsWord add h = refl
named-IsWord sub h = refl
named-IsWord mul h = refl
named-IsWord div h = refl
named-IsWord modulo h = refl
named-IsWord and h = refl
named-IsWord or h = refl
named-IsWord eq h = refl
named-IsWord lt h = refl
named-IsWord gt h = refl
named-IsWord iszero h = refl
named-IsWord jump h = refl
named-IsWord jumpc h = refl
named-IsWord mstore h = refl
named-IsWord mload h = refl
named-IsWord pload h = refl
named-IsWord pstore h = refl
named-IsWord load_local h = refl
named-IsWord store_local h = refl
named-IsWord call h = refl
named-IsWord return h = refl
named-IsWord stop h = refl
named-IsWord emit h = refl
named-IsWord strconcat h = refl
named-IsWord strlen h = refl
named-IsWord emitstr h = refl
named-IsWord strindex h = refl
named-IsWord strslice h = refl
named-IsWord strtoint h = refl
named-IsWord inttostr h = refl
named-IsWord caller h = refl
named-IsWord address h = refl
named-IsWord balance h = refl
named-IsWord origin h = refl
named-IsWord gasprice h = refl
named-IsWord callvalue h = refl
named-IsWord timestamp h = refl
named-IsWord difficulty h = refl
named-IsWord blockhash h = refl
named-IsWord lastblockhash h = refl
named-IsWord coinbase h = refl
named-IsWord height h = refl
named-IsWord gaslimit h = refl
named-IsWord tsxdata h = refl
named-IsWord pc h = absurd (cc)
named-IsWord (undefined n) h = absurd (cc)

pub named_known : (op : Opcode) → is_named op ≡ true → lookup (opcode_name op) opcode_map ≡ some op
unfolding is_named opcode_name opcode_map lookup bytes_eq
named_known noop h = refl
named_known push h = refl
named_known pop h = refl
named_known dup h = refl
named_known swap h = refl
named_known add h = refl
named_known sub h = refl
named_known mul h = refl
named_known div h = refl
named_known modulo h = refl
named_known and h = refl
named_known or h = refl
named_known eq h = refl
named_known lt h = refl
named_known gt h = refl
named_known iszero h = refl
named_known jump h = refl
named_known jumpc h = refl
named_known mstore h = refl
named_known mload h = refl
named_known pload h = refl
named_known pstore h = refl
named_known load_local h = refl
named_known store_local h = refl
named_known call h = refl
named_known return h = refl
named_known stop h = refl
named_known emit h = refl
named_known strconcat h = refl
named_known strlen h = refl
named_known emitstr h = refl
named_known strindex h = refl
named_known strslice h = refl
named_known strtoint h = refl
named_known inttostr h = refl
named_known caller h = refl
named_known address h = refl
named_known balance h = refl
named_known origin h = refl
named_known gasprice h = refl
named_known callvalue h = refl
named_known timestamp h = refl
named_known difficulty h = refl
named_known blockhash h = refl
named_known lastblockhash h = refl
named_known coinbase h = refl
named_known height h = refl
named_known gaslimit h = refl
named_known tsxdata h = refl
named_known pc h = absurd (cc)
named_known (undefined n) h = absurd (cc)

pub named_other :
    (op : Opcode)
    → is_named op ≡ true
    → op ≢ push
    → bytes_eq (opcode_name op) (ascii "PUSH") ≡ false
unfolding is_named opcode_name bytes_eq
named_other noop h k = refl
named_other push h k = absurd (k refl)
named_other pop h k = refl
named_other dup h k = refl
named_other swap h k = refl
named_other add h k = refl
named_other sub h k = refl
named_other mul h k = refl
named_other div h k = refl
named_other modulo h k = refl
named_other and h k = refl
named_other or h k = refl
named_other eq h k = refl
named_other lt h k = refl
named_other gt h k = refl
named_other iszero h k = refl
named_other jump h k = refl
named_other jumpc h k = refl
named_other mstore h k = refl
named_other mload h k = refl
named_other pload h k = refl
named_other pstore h k = refl
named_other load_local h k = refl
named_other store_local h k = refl
named_other call h k = refl
named_other return h k = refl
named_other stop h k = refl
named_other emit h k = refl
named_other strconcat h k = refl
named_other strlen h k = refl
named_other emitstr h k = refl
named_other strindex h k = refl
named_other strslice h k = refl
named_other strtoint h k = refl
named_other inttostr h k = refl
named_other caller h k = refl
named_other address h k = refl
named_other balance h k = refl
named_other origin h k = refl
named_other gasprice h k = refl
named_other callvalue h k = refl
named_other timestamp h k = refl
named_other difficulty h k = refl
named_other blockhash h k = refl
named_other lastblockhash h k = refl
named_other coinbase h k = refl
named_other height h k = refl
named_other gaslimit h k = refl
named_other tsxdata h k = refl
named_other pc h k = absurd (cc)
named_other (undefined n) h k = absurd (cc)
