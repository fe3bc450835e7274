-- ===== src/Blockchain/RootTests.antt =====
-- Instances of the theorems on the roots of maps.
use mathlib.Core.List.{Mem, mem-cons, not-mem-nil}
use mathlib.Core.List.Perm
use mathlib.Core.Logic.Or
use august.Base.{ℕ, ◌≡◌, ◌≢◌, ap, sym, ◌∙◌, [], ◌∷◌, arith}
use august.Base.Bytes.{Bytes, ascii}
use august.Blockchain.Account.{AccountState, new_account}
use august.Blockchain.Sorting.Sorted.{IsMap}
use august.Blockchain.Storage.{compute_storage_root}
use august.Blockchain.Storage.Root.{compute_storage_root-perm}
use august.Blockchain.StateRoot.{compute_state_root}
use august.Blockchain.StateRoot.Root.{compute_state_root-perm}
use august.Blockchain.BlockTests.{toy}

-- Two entries of different keys.
two-IsMap : {K V : Type 0} → IsSet (K × V) → (a b : K × V) → a.0 ≢ b.0 → IsMap (a ∷ b ∷ [])
two-IsMap {K = K} {V = V} is_set a b apart x y p q e =
    let key : K × V → K = λ z. z.0 in
    let one : (z : K × V) → Mem z (b ∷ []) → z ≡ b =
      λ z r. Or.elim (is_set _ _) (mem-cons.0 r) (λ s. s) (λ r'. absurd (not-mem-nil r')) in
    Or.elim (is_set _ _) (mem-cons.0 p)
      (λ xa.
        Or.elim (is_set _ _) (mem-cons.0 q) (λ ya. xa ∙ sym ya)
          (λ yb. absurd (apart (sym (ap key xa) ∙ (e ∙ ap key (one y yb))))))
      (λ xb.
        Or.elim (is_set _ _) (mem-cons.0 q)
          (λ ya. absurd (apart (sym (ap key ya) ∙ (sym e ∙ ap key (one x xb)))))
          (λ yb. one x xb ∙ sym (one y yb)))

bytes_set : IsSet (Bytes × Bytes)
bytes_set = hlevel

states_set : IsSet (ℕ × AccountState)
states_set = hlevel

abbrev stored : Bytes × Bytes
stored = (ascii "b", ascii "1")

abbrev stored' : Bytes × Bytes
stored' = (ascii "a", ascii "2")

stored_apart : ascii "b" ≢ ascii "a"
stored_apart e = ground arith

compute_storage_root-perm_example :
    compute_storage_root toy (stored ∷ stored' ∷ [])
    ≡ compute_storage_root toy (stored' ∷ stored ∷ [])
compute_storage_root-perm_example =
    compute_storage_root-perm toy (stored ∷ stored' ∷ []) (stored' ∷ stored ∷ [])
      (Perm.swap stored' stored []) (two-IsMap bytes_set stored stored' stored_apart)

abbrev account : ℕ → ℕ × AccountState
account k = (k, new_account k 100)

eight_seven : ◌≢◌ {A = ℕ} 8 7
eight_seven e = omega (arith, e)

compute_state_root-perm_example :
    compute_state_root toy (account 8 ∷ account 7 ∷ [])
    ≡ compute_state_root toy (account 7 ∷ account 8 ∷ [])
compute_state_root-perm_example =
    compute_state_root-perm toy (account 8 ∷ account 7 ∷ []) (account 7 ∷ account 8 ∷ [])
      (Perm.swap (account 7) (account 8) [])
      (two-IsMap states_set (account 8) (account 7) eight_seven)
