-- ===== src/Blockchain/HeaderChain.antt =====
-- blockchain/validation.go: the checks of headers that come without their blocks.
pub mod Sound
use august.Base.{
  ℕ, ◌+◌, ◌%◌, Bool, true, false, Option, none, some, List, [], ◌∷◌, ltb, ◌==◌, ◌&&◌, not,
  if◌then◌else◌,
}
use august.Base.Bytes.{Bytes, bytes_eq}
use august.Config.{u64_mod}
use august.Blockchain.Primitives.{Crypto}
use august.Blockchain.Header.{BlockHeader, header_hash, meets_difficulty, add_work, work_from_bits}

pub data HeaderError : Type 0 where
  low_work invalid_genesis invalid_total_work : HeaderError

-- `ValidateHeaderStructure`, with the hash of the genesis header; `none` is nil.
unfoldable pub validate_header_structure : Crypto → ℕ → BlockHeader → Option HeaderError
validate_header_structure c genesis h =
    if not (meets_difficulty (header_hash c h) h.bits)
    then some low_work
    else if (h.height == 0) && not (genesis == header_hash c h)
    then some invalid_genesis
    else none

abbrev check_total_work : BlockHeader → Bytes → Option HeaderError → Option HeaderError
check_total_work h previous (some e) = some e
check_total_work h previous none =
    if ltb 0 h.height && not (bytes_eq h.total_work (add_work previous (work_from_bits h.bits)))
    then some invalid_total_work
    else none

-- `ValidateHeaderTotalWork`
unfoldable pub validate_header_total_work : Crypto → ℕ → BlockHeader → Bytes → Option HeaderError
validate_header_total_work c genesis h previous =
    check_total_work h previous (validate_header_structure c genesis h)

abbrev pub is_nil : Option HeaderError → Bool
is_nil none = true
is_nil (some e) = false

-- The links of a header to the one before it: hash, height and time.
unfoldable pub links_to : Crypto → BlockHeader → BlockHeader → Bool
links_to c previous h =
    (h.previous_hash == header_hash c previous)
    && (h.height == (previous.height + 1) % u64_mod)
    && ltb previous.timestamp h.timestamp

-- The loop of `ValidateHeaderChain` after a header.
unfoldable pub follow : Crypto → ℕ → BlockHeader → List BlockHeader → Bool
follow c genesis previous [] = true
follow c genesis previous (h ∷ hs) =
    links_to c previous h && is_nil (validate_header_structure c genesis h) && follow c genesis h hs

-- `ValidateHeaderChain`: the first header itself is not looked at.
unfoldable pub validate_header_chain : Crypto → ℕ → List BlockHeader → Bool
unfolding follow
validate_header_chain c genesis [] = false
validate_header_chain c genesis (h ∷ hs) = follow c genesis h hs

-- The loop of `ValidateHeaderChainWithWork` after a header.
unfoldable pub follow_with_work : Crypto → ℕ → BlockHeader → List BlockHeader → Bool
follow_with_work c genesis previous [] = true
follow_with_work c genesis previous (h ∷ hs) =
    is_nil (validate_header_total_work c genesis h previous.total_work)
    && links_to c previous h
    && follow_with_work c genesis h hs

-- `ValidateHeaderChainWithWork`
unfoldable pub validate_header_chain_with_work : Crypto → ℕ → List BlockHeader → Bytes → Bool
unfolding follow_with_work
validate_header_chain_with_work c genesis [] start = false
validate_header_chain_with_work c genesis (h ∷ hs) start =
    is_nil (validate_header_total_work c genesis h start) && follow_with_work c genesis h hs
