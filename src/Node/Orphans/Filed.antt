-- ===== src/Node/Orphans/Filed.antt =====
-- node/orphans.go and header_processing.go: each waiting header stands under its parent, and each
-- parent once.
use august.Base.{
  ℕ, ◌-◌, ◌≡◌, refl, Option, none, some, List, [], ◌∷◌, ◌++◌, ◌==◌, ==_iff, arith, Bool-cases,
  Option-cases, inl, inr,
}
use august.Base.Dict.{Dict, lookup, insert, erase, nat_eq, lookup-insert, lookup-erase}
use august.Config.{u64_mod}
use august.Blockchain.Primitives.{Crypto}
use august.Blockchain.Header.{BlockHeader, header_hash}
use august.Blockchain.Block.{Chain}
use august.Node.Orphans.{
  Orphans, waiting, add_orphan, take_out, put_back, remove_orphan, lowest_tip, not_below, keep_some,
  sweep, cleanup_stale_orphans,
}
use august.Node.Orphans.Stale.{IsKeyed, lookup-sweep, cleanup_stale_orphans_lem}

-- Headers whose parent has a hash.
abbrev pub AllUnder : ℕ → List BlockHeader → Type 0
AllUnder k [] = Unit {0}
AllUnder k (h ∷ hs) = (h.previous_hash ≡ k) × AllUnder k hs

abbrev pub IsFiled : Orphans → Type 0
IsFiled m = ((k : ℕ) → AllUnder k (waiting k m)) × IsKeyed m

pub nil-IsFiled : IsFiled []
unfolding lookup
nil-IsFiled = ((λ k. tt), tt)

AllUnder-append :
    (k : ℕ) (hs : List BlockHeader) (h : BlockHeader)
    → AllUnder k hs
    → h.previous_hash ≡ k
    → AllUnder k (hs ++ h ∷ [])
AllUnder-append k [] h all under = (under, tt)
AllUnder-append k (g ∷ hs) h (first, all) under = (first, AllUnder-append k hs h all under)

AllUnder-not_below :
    (k least : ℕ) (hs : List BlockHeader) → AllUnder k hs → AllUnder k (not_below least hs)
unfolding not_below
AllUnder-not_below k least [] all = tt
AllUnder-not_below k least (h ∷ hs) (first, all) = ground (arith, AllUnder-not_below k least hs all)

-- What is left where one header is taken out.
abbrev AllLeft : ℕ → Option (List BlockHeader) → Type 0
AllLeft k none = Unit {0}
AllLeft k (some hs) = AllUnder k hs

AllLeft-take_out :
    (c : Crypto) (k hash : ℕ) (hs : List BlockHeader)
    → AllUnder k hs
    → AllLeft k (take_out c hash hs)
unfolding take_out
AllLeft-take_out c k hash [] all = tt
AllLeft-take_out c k hash (h ∷ hs) (first, all) =
    let rest = AllLeft-take_out c k hash hs all in
    elim (Bool-cases (header_hash c h == hash)) [
      | inl here ↦ rw here all
      | inr there ↦ rw there (elim (Option-cases (take_out c hash hs)) [
        | inl gone ↦ rw gone tt
        | inr (ks, e) ↦ rw e (first, rw e at rest)
      ])
    ]

insert-IsKeyed : (k : ℕ) (hs : List BlockHeader) (m : Orphans) → IsKeyed m → IsKeyed (insert k hs m)
unfolding insert lookup
insert-IsKeyed k hs [] keyed = (refl, tt)
insert-IsKeyed k hs ((j, gs) ∷ m) (once, rest) = elim (Bool-cases (j == k)) [
  | inl here ↦ rw here (once, rest)
  | inr there ↦ rw there (ground (arith, lookup-insert k j hs m), insert-IsKeyed k hs m rest)
]

erase-IsKeyed : (k : ℕ) (m : Orphans) → IsKeyed m → IsKeyed (erase k m)
unfolding erase
erase-IsKeyed k [] keyed = tt
erase-IsKeyed k ((j, gs) ∷ m) (once, rest) = elim (Bool-cases (j == k)) [
  | inl here ↦ rw here (erase-IsKeyed k m rest)
  | inr there ↦ rw there ((rw (lookup-erase k j m) (ground arith)), erase-IsKeyed k m rest)
]

keep_some-IsKeyed :
    (k : ℕ) (hs : List BlockHeader) (m : Orphans)
    → lookup k m ≡ none
    → IsKeyed m
    → IsKeyed (keep_some k hs m)
keep_some-IsKeyed k [] m once keyed = keyed
keep_some-IsKeyed k (h ∷ hs) m once keyed = (once, keyed)

sweep-IsKeyed : (least : ℕ) (m : Orphans) → IsKeyed m → IsKeyed (sweep least m)
unfolding sweep
sweep-IsKeyed least [] keyed = tt
sweep-IsKeyed least ((j, gs) ∷ m) (once, rest) =
    keep_some-IsKeyed j (not_below least gs) (sweep least m) (lookup-sweep least j m once)
      (sweep-IsKeyed least m rest)

insert-IsFiled :
    (k : ℕ) (hs : List BlockHeader) (m : Orphans)
    → IsFiled m
    → AllUnder k hs
    → IsFiled (insert k hs m)
insert-IsFiled k hs m (under, keyed) all = (
  (λ j. rw (lookup-insert k j hs m) (elim (Bool-cases (k == j)) [
    | inl here ↦ rw here (rw ((==_iff k j).0 here) at all)
    | inr there ↦ rw there (under j)
  ])),
  insert-IsKeyed k hs m keyed,
)

cleanup-IsKeyed :
    (chains : Dict ℕ Chain) (m : Orphans) → IsKeyed m → IsKeyed (cleanup_stale_orphans chains m)
unfolding cleanup_stale_orphans
cleanup-IsKeyed chains m keyed =
    elim (Bool-cases (lowest_tip (u64_mod - 1) chains == u64_mod - 1)) [
      | inl none_low ↦ rw none_low keyed
      | inr low ↦ rw low (sweep-IsKeyed (lowest_tip (u64_mod - 1) chains) m keyed)
    ]

put_back-IsFiled :
    (k : ℕ) (m : Orphans) (o : Option (List BlockHeader))
    → IsFiled m
    → AllLeft k o
    → IsFiled (put_back k m o)
put_back-IsFiled k m none filed left = filed
put_back-IsFiled k m (some []) (under, keyed) left = (
  (λ j.
      rw (lookup-erase k j m)
        (elim (Bool-cases (k == j)) [ inl here ↦ rw here tt | inr there ↦ rw there (under j) ])),
  erase-IsKeyed k m keyed,
)
put_back-IsFiled k m (some (h ∷ hs)) (under, keyed) left =
    insert-IsFiled k (h ∷ hs) m (under, keyed) left

module _ (c : Crypto) (h : BlockHeader) (m : Orphans) (filed : IsFiled m) where
  pub add_orphan-IsFiled : IsFiled (add_orphan h m)
  unfolding add_orphan
  add_orphan-IsFiled =
      insert-IsFiled h.previous_hash (waiting h.previous_hash m ++ h ∷ []) m filed (
        AllUnder-append h.previous_hash (waiting h.previous_hash m) h (filed.0 h.previous_hash)
          refl)

  pub remove_orphan-IsFiled : IsFiled (remove_orphan c h m)
  unfolding remove_orphan
  remove_orphan-IsFiled = put_back-IsFiled h.previous_hash m _ filed (
      AllLeft-take_out c h.previous_hash (header_hash c h) (waiting h.previous_hash m)
        (filed.0 h.previous_hash))

pub cleanup_stale_orphans-IsFiled :
    (chains : Dict ℕ Chain) (m : Orphans) → IsFiled m → IsFiled (cleanup_stale_orphans chains m)
cleanup_stale_orphans-IsFiled chains m (under, keyed) = (
  (λ k.
      rw (cleanup_stale_orphans_lem chains m k keyed)
        (elim (Bool-cases (lowest_tip (u64_mod - 1) chains == u64_mod - 1)) [
          | inl none_low ↦ rw none_low (under k)
          | inr low ↦
              rw low
                (AllUnder-not_below k (lowest_tip (u64_mod - 1) chains) (waiting k m) (under k))
        ])),
  cleanup-IsKeyed chains m keyed,
)
