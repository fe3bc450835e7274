-- ===== src/Node/Orphans/Stale.antt =====
-- node/orphans.go: what `cleanupStaleOrphans` keeps.
use august.Base.{
  ℕ, ◌-◌, ◌≡◌, refl, sym, ap, ◌∙◌, true, false, none, List, [], ◌∷◌, ◌==◌, ==_iff, if◌then◌else◌,
  arith, Bool-cases, inl, inr,
}
use august.Base.Dict.{Dict, lookup, nat_eq}
use august.Config.{u64_mod}
use august.Blockchain.Header.{BlockHeader}
use august.Blockchain.Block.{Chain}
use august.Node.Orphans.{
  Orphans, or_none, waiting, lowest_tip, not_below, keep_some, sweep, cleanup_stale_orphans,
}

-- A key stands once.
abbrev pub IsKeyed : Orphans → Type 0
IsKeyed [] = Unit {0}
IsKeyed ((k, hs) ∷ m) = (lookup k m ≡ none) × IsKeyed m

waiting-keep_some_self :
    (j k : ℕ) (l : List BlockHeader) (m : Orphans)
    → (j == k) ≡ true
    → lookup k m ≡ none
    → waiting k (keep_some j l m) ≡ l
unfolding lookup
waiting-keep_some_self j k [] m here gone = ap or_none gone
waiting-keep_some_self j k (h ∷ hs) m here gone = rw here

waiting-keep_some_other :
    (j k : ℕ) (l : List BlockHeader) (m : Orphans)
    → (j == k) ≡ false
    → waiting k (keep_some j l m) ≡ waiting k m
unfolding lookup
waiting-keep_some_other j k [] m there = refl
waiting-keep_some_other j k (h ∷ hs) m there = rw there

lookup-keep_some_other :
    (j k : ℕ) (l : List BlockHeader) (m : Orphans)
    → (j == k) ≡ false
    → lookup k (keep_some j l m) ≡ lookup k m
unfolding lookup
lookup-keep_some_other j k [] m there = refl
lookup-keep_some_other j k (h ∷ hs) m there = rw there

pub lookup-sweep : (least k : ℕ) (m : Orphans) → lookup k m ≡ none → lookup k (sweep least m) ≡ none
unfolding sweep lookup
lookup-sweep least k [] gone = refl
lookup-sweep least k ((j, hs) ∷ m) gone = elim (Bool-cases (j == k)) [
  | inl here ↦ ground arith
  | inr there ↦
      lookup-keep_some_other j k (not_below least hs) (sweep least m) there
      ∙ lookup-sweep least k m (ground arith)
]

waiting-sweep :
    (least k : ℕ) (m : Orphans)
    → IsKeyed m
    → waiting k (sweep least m) ≡ not_below least (waiting k m)
unfolding sweep lookup not_below
waiting-sweep least k [] keyed = refl
waiting-sweep least k ((j, hs) ∷ m) (once, rest) = elim (Bool-cases (j == k)) [
  | inl here ↦
      waiting-keep_some_self j k (not_below least hs) (sweep least m) here
        (lookup-sweep least k m (ap (λ i. lookup i m) (sym ((==_iff j k).0 here)) ∙ once))
      ∙ (rw here)
  | inr there ↦
      waiting-keep_some_other j k (not_below least hs) (sweep least m) there
      ∙ waiting-sweep least k m rest
      ∙ (rw there)
]

-- Where no chain has a tip below the largest height, `cleanupStaleOrphans` keeps all; else it keeps,
-- under each parent and in their order, just the headers from the lowest tip on.
pub cleanup_stale_orphans_lem :
    (chains : Dict ℕ Chain) (m : Orphans) (k : ℕ)
    → IsKeyed m
    → waiting k (cleanup_stale_orphans chains m) ≡ (
        let least = lowest_tip (u64_mod - 1) chains in
        if least == u64_mod - 1 then waiting k m else not_below least (waiting k m))
unfolding cleanup_stale_orphans
cleanup_stale_orphans_lem chains m k keyed =
    elim (Bool-cases (lowest_tip (u64_mod - 1) chains == u64_mod - 1)) [
      | inl empty ↦ rw empty
      | inr some_tip ↦
          (rw some_tip) ∙ waiting-sweep (lowest_tip (u64_mod - 1) chains) k m keyed ∙ (rw some_tip)
    ]
