-- ===== src/Blockchain/Header.antt =====
-- blockchain/block.go, work.go and difficulty.go: block headers, their hash, work and difficulty.
use august.Base.{
  ℕ, ◌+◌, ◌-◌, ◌*◌, ◌/◌, ◌%◌, ◌^◌, Bool, Option, none, some, ◌++◌, ltb, leb, if◌then◌else◌,
}
use august.Base.Int.{ℤ, pos, abs, signed64, ltb_ℤ, pos_part, ◌+ℤ◌}
use august.Base.Bytes.{Bytes, be_bytes}
use august.Config.{u64_mod, target_compact, target_timespan, max_adjustment_factor}
use august.Utils.Compact.{compact_to_big, big_bytes}
use august.Types.Literal.{set_string}
use august.Avm.Decimal.{print_nat, print_int}
use august.Blockchain.Primitives.{Crypto}

-- `total_work` is a decimal text, as in the source.
pub record BlockHeader : Type 0 where
  pub version : ℕ
  pub previous_hash : ℕ
  pub height : ℕ
  pub timestamp : ℕ
  pub nonce : ℕ
  pub merkle_root : ℕ
  pub state_root : ℕ
  pub receipt_root : ℕ
  pub bits : ℕ
  pub total_work : Bytes
  pub gas_limit : ℕ
  pub gas_used : ℕ
  pub beneficiary : ℕ

abbrev or_zero : Option ℤ → ℤ
or_zero none = pos 0
or_zero (some v) = v

-- The number, with its sign, that `SetString` reads in a text of work. What it leaves behind after a text that is
-- no number Go does not say; 0 here.
unfoldable pub work_value : Bytes → ℤ
work_value s = or_zero (set_string 10 s)

-- `BlockHeader.GetHash`; `Bytes` is of the absolute value.
unfoldable pub header_hash : Crypto → BlockHeader → ℕ
unfolding be_bytes work_value big_bytes
header_hash c h = c.sha256 (
    be_bytes 8 h.version
    ++ (be_bytes 32 h.previous_hash
        ++ (be_bytes 8 h.height
            ++ (be_bytes 8 h.timestamp
                ++ (be_bytes 32 h.merkle_root
                    ++ (be_bytes 32 h.state_root
                        ++ (be_bytes 32 h.receipt_root
                            ++ (be_bytes 4 h.bits
                                ++ (big_bytes (abs (work_value h.total_work))
                                    ++ (be_bytes 8 h.gas_limit
                                        ++ (be_bytes 8 h.gas_used
                                            ++ (be_bytes 32 h.beneficiary
                                                ++ be_bytes 8 h.nonce))))))))))))

-- `BlockHashMeetsDifficulty`
unfoldable pub meets_difficulty : ℕ → ℕ → Bool
unfolding compact_to_big
meets_difficulty hash bits = leb hash (compact_to_big bits)

-- The number of `GetBlockWork` and of `CalculateBlockWorkFromBits`.
unfoldable pub block_work : ℕ → ℕ
unfolding compact_to_big
block_work bits = 2 ^ 256 / (compact_to_big bits + 1)

-- `AddWork`
unfoldable pub add_work : Bytes → Bytes → Bytes
unfolding work_value print_int ◌+ℤ◌
add_work a b = print_int (work_value a +ℤ work_value b)

-- The order of `big.Int.Cmp`: less, equal or greater.
pub data Comparison : Type 0 where
  less equal greater : Comparison

-- `CompareWork`
unfoldable pub compare_work : Bytes → Bytes → Comparison
unfolding work_value
compare_work a b =
    if ltb_ℤ (work_value a) (work_value b)
    then less
    else if ltb_ℤ (work_value b) (work_value a)
    then greater
    else equal

-- `CalculateBlockWorkFromBits`
unfoldable pub work_from_bits : ℕ → Bytes
unfolding block_work print_nat
work_from_bits bits = print_nat (block_work bits)

-- `actualTimespan` between the limits of the adjustment, from the times of the first and the last
-- block of the period; their difference wraps as `uint64` and is then read as an `int64`.
unfoldable pub clamped_timespan : ℕ → ℕ → ℕ
clamped_timespan first last =
    let span = signed64 ((last + u64_mod - first) % u64_mod) in
    if ltb_ℤ span (pos (target_timespan / max_adjustment_factor))
    then target_timespan / max_adjustment_factor
    else if ltb_ℤ (pos (target_timespan * max_adjustment_factor)) span
    then target_timespan * max_adjustment_factor
    else pos_part span

-- The target for the next period, no larger than the easiest one.
unfoldable pub next_target : ℕ → ℕ → ℕ
unfolding compact_to_big
next_target bits timespan =
    let target = compact_to_big bits * timespan / target_timespan in
    if ltb (compact_to_big target_compact) target then compact_to_big target_compact else target
