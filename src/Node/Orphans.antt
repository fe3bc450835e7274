-- ===== src/Node/Orphans.antt =====
-- node/orphans.go and header_processing.go: the headers that wait for their parents, by the hash of
-- the parent.
pub mod Stale
pub mod Added
pub mod Filed
use august.Base.{
  ℕ, ◌-◌, Bool, true, false, Option, none, some, List, [], ◌∷◌, ◌++◌, ltb, leb, ◌==◌, if◌then◌else◌,
  length,
}
use august.Base.Dict.{Dict, lookup, insert, erase, nat_eq}
use august.Config.{u64_mod}
use august.Blockchain.Primitives.{Crypto}
use august.Blockchain.Header.{BlockHeader, header_hash}
use august.Blockchain.Block.{Block, Chain}

abbrev pub Orphans : Type 0
Orphans = Dict ℕ (List BlockHeader)

abbrev pub or_none : Option (List BlockHeader) → List BlockHeader
or_none none = []
or_none (some hs) = hs

-- `orphanHeaders[hash]`, nil where the hash is not there.
abbrev pub waiting : ℕ → Orphans → List BlockHeader
waiting k m = or_none (lookup k m)

-- The line of `handleOrphanHeader` that keeps a header.
unfoldable pub add_orphan : BlockHeader → Orphans → Orphans
add_orphan h m = insert h.previous_hash (waiting h.previous_hash m ++ h ∷ []) m

-- The loop over a list of headers that takes out the first one of a hash; `none` if there is none.
unfoldable pub take_out : Crypto → ℕ → List BlockHeader → Option (List BlockHeader)
unfolding header_hash
take_out c hash [] = none
take_out c hash (h ∷ hs) =
    let rest = take_out c hash hs in
    if header_hash c h == hash then some hs else elim rest [ none ↦ none | some ks ↦ some (h ∷ ks) ]

abbrev pub put_back : ℕ → Orphans → Option (List BlockHeader) → Orphans
put_back k m none = m
put_back k m (some []) = erase k m
put_back k m (some (h ∷ hs)) = insert k (h ∷ hs) m

-- The removal in `handleChainExtension`.
unfoldable pub remove_orphan : Crypto → BlockHeader → Orphans → Orphans
unfolding header_hash take_out
remove_orphan c h m =
    put_back h.previous_hash m (take_out c (header_hash c h) (waiting h.previous_hash m))

abbrev lower : ℕ → Option Block → ℕ
lower least none = least
lower least (some b) = if ltb b.header.height least then b.header.height else least

-- The loop over the chains: the lowest tip, below a bound.
unfoldable pub lowest_tip : ℕ → Dict ℕ Chain → ℕ
lowest_tip least [] = least
lowest_tip least ((k, chain) ∷ chains) = lowest_tip (lower least chain.tip) chains

-- The headers from a height on.
unfoldable pub not_below : ℕ → List BlockHeader → List BlockHeader
not_below least [] = []
not_below least (h ∷ hs) = if leb least h.height then h ∷ not_below least hs else not_below least hs

abbrev pub keep_some : ℕ → List BlockHeader → Orphans → Orphans
keep_some k [] m = m
keep_some k (h ∷ hs) m = (k, h ∷ hs) ∷ m

-- The loop over the waiting headers; a list that is left empty goes away.
unfoldable pub sweep : ℕ → Orphans → Orphans
unfolding not_below
sweep least [] = []
sweep least ((k, hs) ∷ m) = keep_some k (not_below least hs) (sweep least m)

-- `cleanupStaleOrphans`
unfoldable pub cleanup_stale_orphans : Dict ℕ Chain → Orphans → Orphans
unfolding lowest_tip sweep
cleanup_stale_orphans chains m =
    let least = lowest_tip (u64_mod - 1) chains in if least == u64_mod - 1 then m else sweep least m
