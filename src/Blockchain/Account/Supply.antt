-- ===== src/Blockchain/Account/Supply.antt =====
-- The sum of the balances under the writes of the map.
use august.Base.{ℕ, ◌+◌, ◌≤◌, ◌≡◌, [], ◌∷◌, none, some, arith}
use august.Base.Dict.{lookup, insert, nat_eq}
use august.Blockchain.Account.{AccountState, States, supply}

pub supply-insert :
    (k : ℕ) (a b : AccountState) (m : States)
    → lookup k m ≡ some b
    → supply (insert k a m) + b.balance ≡ supply m + a.balance
unfolding lookup insert supply
supply-insert k a b [] e = absurd (cc)
supply-insert k a b ((j, w) ∷ m) e = ground (arith, supply-insert k a b m)

pub supply-insert_new :
    (k : ℕ) (a : AccountState) (m : States)
    → lookup k m ≡ none
    → supply (insert k a m) ≡ supply m + a.balance
unfolding lookup insert supply
supply-insert_new k a [] e = omega arith
supply-insert_new k a ((j, w) ∷ m) e = ground (arith, supply-insert_new k a m)

-- No account has more than all have together.
pub balance-le-supply :
    (k : ℕ) (a : AccountState) (m : States) → lookup k m ≡ some a → a.balance ≤ supply m
unfolding lookup supply
balance-le-supply k a [] e = absurd (cc)
balance-le-supply k a ((j, w) ∷ m) e = ground (arith, balance-le-supply k a m)
