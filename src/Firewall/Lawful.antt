-- ===== src/Firewall/Lawful.antt =====
-- What the policies assume of a backend (the comment on FirewallBackend, internal/firewall/backend.go): the
-- managed rules behind its state, and what each operation does to them. The order of the rules is
-- not fixed (nft inserts at the head, the mock appends), so the laws count rules by tests.
pub mod Deletes
pub mod Extends
use nft_okboy_fleet.Firewall.Comment.{comment_for, user_prefix}
use nft_okboy_fleet.Firewall.Comment.Laws.{NoColon}
use nft_okboy_fleet.Prelude.{
  ℤ, ℤ-discrete, Text, Text-discrete, Bool, none, List, ◌≡◌, ◌≢◌, ◌+◌, ◌≤◌, ◌==◌, ◌&&◌, not,
  if◌then◌else◌, count, keep, has_prefix,
}
use nft_okboy_fleet.Firewall.{Rule, FirewallBackend, listed, []}

-- The identity of a rule for ReconcileAll: (ip, proto, user, group, port).
pub record Key : Type 0 where
  pub ip : Text
  pub proto : Text
  pub user : Text
  pub group : Text
  pub port : ℤ

instance unfoldable pub Key-discrete : Discrete Key
unfolding Text-discrete ℤ-discrete
Key-discrete = hlevel (Text-discrete, ℤ-discrete)

unfoldable pub key_of : Rule → Key
key_of r = record { ip = r.ip; proto = r.proto; user = r.user; group = r.group; port = r.port }

abbrev pub by_handle : ℤ → Rule → Bool
by_handle h r = r.handle == h

abbrev pub by_key : Key → Rule → Bool
by_key k r = key_of r == k

-- The comment names the user as the rule's owner.
abbrev pub of_user : Text → Text → Rule → Bool
of_user prefix user r = has_prefix r.comment (user_prefix prefix user)

-- `new` is `old` with one more rule of the key, under a handle that `old` does not use.
pub record Adds (prefix : Text) (k : Key) (old new : List Rule) : Type 0 where
  pub rule : Rule
  pub key : key_of rule ≡ k
  pub comment : rule.comment ≡ comment_for prefix k.user k.group
  pub fresh : count (by_handle rule.handle) old ≡ 0
  pub counts : (p : Rule → Bool) → count p new ≡ count p old + (if p rule then 1 else 0)

abbrev pub Removes : ℤ → List Rule → List Rule → Type 0
Removes h old new = (p : Rule → Bool) → count p new ≡ count (λ r. p r && not (by_handle h r)) old

-- A name that is not empty and has no colon, so that a comment gives it back.
abbrev pub IsPlain : Text → Type 0
IsPlain name = NoColon name × (name ≢ [])

abbrev pub IsPlainKey : Key → Type 0
IsPlainKey k = IsPlain k.user × IsPlain k.group

abbrev pub IsPlainRule : Rule → Type 0
IsPlainRule r = IsPlain r.user × IsPlain r.group

pub record Laws (be : FirewallBackend) : Type 1 where
  pub prefix : Text
  pub rules : be.State → List Rule
  pub IsValid : be.State → Type 0
  pub unique : (s : be.State) → IsValid s → (h : ℤ) → count (by_handle h) (rules s) ≤ 1
  -- A listing returns the managed rules and changes nothing.
  pub list_valid : (s : be.State) → IsValid s → IsValid (be.list_managed s).1
  pub list_keeps : (s : be.State) → rules (be.list_managed s).1 ≡ rules s
  pub list_all : (s : be.State) (rs : List Rule) → (be.list_managed s).0 ≡ listed rs → rs ≡ rules s
  pub list_user_valid :
      (user : Text) (s : be.State) → IsValid s → IsValid (be.list_user_rules user s).1
  pub list_user_keeps : (user : Text) (s : be.State) → rules (be.list_user_rules user s).1 ≡ rules s
  pub list_user_all :
      (user : Text) (s : be.State) (rs : List Rule)
      → IsValid s
      → (be.list_user_rules user s).0 ≡ listed rs
      → rs ≡ keep (of_user prefix user) (rules s)
  -- An addition that returns nil has added the rule; one that returns an error, nothing.
  pub add_valid :
      (k : Key) (s : be.State)
      → IsValid s
      → IsValid (be.add_rule k.ip k.port k.user k.proto k.group s).1
  pub add_done :
      (k : Key) (s : be.State)
      → IsPlainKey k
      → IsValid s
      → (be.add_rule k.ip k.port k.user k.proto k.group s).0 ≡ none
      → Adds prefix k (rules s) (rules (be.add_rule k.ip k.port k.user k.proto k.group s).1)
  pub add_failed :
      (k : Key) (s : be.State)
      → (be.add_rule k.ip k.port k.user k.proto k.group s).0 ≢ none
      → rules (be.add_rule k.ip k.port k.user k.proto k.group s).1 ≡ rules s
  -- So for a deletion by handle.
  pub delete_valid : (h : ℤ) (s : be.State) → IsValid s → IsValid (be.delete_by_handle h s).1
  pub delete_done :
      (h : ℤ) (s : be.State)
      → IsValid s
      → (be.delete_by_handle h s).0 ≡ none
      → Removes h (rules s) (rules (be.delete_by_handle h s).1)
  pub delete_failed :
      (h : ℤ) (s : be.State)
      → (be.delete_by_handle h s).0 ≢ none
      → rules (be.delete_by_handle h s).1 ≡ rules s
