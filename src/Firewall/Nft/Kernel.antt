-- ===== src/Firewall/Nft/Kernel.antt =====
-- What nft documents of a transaction: it is applied as a whole or not at all, `insert` puts a rule
-- at the head of the chain and `add` at its tail, each under a handle that no rule of the chain has,
-- `delete` takes a rule out by its handle, and a listing shows the chain's rules as they were sent.
use nft_okboy_fleet.Prelude.{
  ◌≤◌, ◌≡◌, Bool, true, false, not, some, List, [], ◌∷◌, ◌++◌, ◌==◌, nat_discrete, Bool-discrete, ℤ,
  ℤ-discrete, count, keep, Text-discrete,
}
use nft_okboy_fleet.Firewall.Nft.{
  Nft, NftRule, NewRule, Command, add_table, add_chain, insert, append, delete,
}

abbrev pub at_handle : ℤ → NftRule → Bool
at_handle h r = r.handle == h

abbrev pub stored : ℤ → NewRule → NftRule
stored h r = record { handle = h; comment = r.comment; expr = r.expr }

-- The chains that a transaction can lead to.
abbrev pub Applies : List Command → List NftRule → List NftRule → Type 0
Applies [] old new = new ≡ old
Applies (add_table ∷ cs) old new = Applies cs old new
Applies (add_chain ∷ cs) old new = Applies cs old new
Applies (insert r ∷ cs) old new =
    (h : ℤ) × (count (at_handle h) old ≡ 0) × Applies cs (stored h r ∷ old) new
Applies (append r ∷ cs) old new =
    (h : ℤ) × (count (at_handle h) old ≡ 0) × Applies cs (old ++ stored h r ∷ []) new
Applies (delete h ∷ cs) old new = Applies cs (keep (λ r. not (at_handle h r)) old) new

pub record Documented (nft : Nft) : Type 1 where
  pub chain : nft.Kernel → List NftRule
  pub handles : (k : nft.Kernel) (h : ℤ) → count (at_handle h) (chain k) ≤ 1
  pub listing : (k : nft.Kernel) (rs : List NftRule) → nft.list k ≡ some rs → rs ≡ chain k
  pub refused :
      (cs : List Command) (k : nft.Kernel)
      → (nft.run cs k).0 ≡ false
      → chain (nft.run cs k).1 ≡ chain k
  pub applied :
      (cs : List Command) (k : nft.Kernel)
      → (nft.run cs k).0 ≡ true
      → Applies cs (chain k) (chain (nft.run cs k).1)
