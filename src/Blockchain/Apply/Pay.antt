-- ===== src/Blockchain/Apply/Pay.antt =====
-- blockchain/validation.go: the payment that ends a transaction.
use august.Base.{ℕ, ◌+◌, ◌-◌, ◌*◌, ◌%◌, ◌≤◌, ◌<◌, ◌≡◌, Bool, false, arith}
use august.Base.Dict.{insert, nat_eq}
use august.Config.{u64_mod}
use august.Utils.SafeMath.{safe_add, safe_subtract}
use august.Blockchain.Account.{AccountState, States}
use august.Blockchain.Transaction.{Transaction}
use august.Blockchain.Validate.{gas_limit_exceeded}
use august.Blockchain.Apply.{ok, err, pay, debited}

-- The whole cost fits in the sender's balance: the payment goes through, and takes that cost.
pub pay_covered :
    (t : Transaction) (gas cost : ℕ) (a : AccountState) (states : States)
    → gas ≤ t.gas_limit
    → cost + gas * t.gas_price ≤ a.balance
    → a.balance < u64_mod
    → pay t gas cost a false states
      ≡ (ok gas, insert t.sender (debited a (a.balance - (cost + gas * t.gas_price))) states)
unfolding pay safe_add safe_subtract
pay_covered t gas cost a states g c b = ground arith

-- More gas than the limit is an error, and the payment does not happen.
pub pay_exceeded :
    (t : Transaction) (gas cost : ℕ) (a : AccountState) (detached : Bool) (states : States)
    → t.gas_limit < gas
    → pay t gas cost a detached states ≡ (err gas gas_limit_exceeded, states)
unfolding pay
pay_exceeded t gas cost a detached states g = ground arith

-- What a payment that went through has done.
pub pay_inversion :
    (t : Transaction) (gas cost : ℕ) (a : AccountState) (states : States) {used : ℕ}
    {after : States}
    → pay t gas cost a false states ≡ (ok used, after)
    → (used ≡ gas)
      × (gas ≤ t.gas_limit)
      × (cost + gas * t.gas_price % u64_mod ≤ a.balance)
      × (after
          ≡ insert t.sender (debited a (a.balance - (cost + gas * t.gas_price % u64_mod))) states)
unfolding pay safe_add safe_subtract
pay_inversion t gas cost a states h = ground arith
