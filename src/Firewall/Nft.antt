-- ===== src/Firewall/Nft.antt =====
-- The nftables backend (internal/firewall/nft.go), over the program `nft` as a parameter. A program
-- of commands is one transaction; JSON is the data that it spells, as far as the source reads it.
pub mod Kernel
pub mod Parse
pub mod Lawful
pub mod Program
pub mod Apart
pub mod InPlace
pub mod Ruling
pub mod Runs
pub mod Tests
use nft_okboy_fleet.Prelude.{
  ℕ, zero, suc, ◌+◌, ◌-◌, ◌*◌, ◌/◌, ◌%◌, ◌^◌, ◌≤◌, ◌<◌, ◌≡◌, refl, sym, ap, ◌∙◌, ◌≢◌, ◌↔◌, ◌⊎◌, inl,
  inr, Bool, true, false, ◌&&◌, ◌||◌, not, Option, none, some, List, [], ◌∷◌, ◌++◌, map, arith, ltb,
  leb, if◌then◌else◌, ◌==◌, ==_refl, nat_discrete, Bool-discrete, Bool-cases, Option-cases, is_some,
  ℤ, pos, negsuc, ℤ-discrete, pos_part, neg_part, sub_ℕ, ◌-ℤ◌, ltℤ, leℤ, wrap64, neg64, length,
  count, keep, any, null, All, All-append, has, Text, Text-discrete, text, has_prefix, strip_prefix,
  cut, count_ext, count-keep, count-le, count_mono, count-append,
}
use nft_okboy_fleet.Firewall.{
  Rule, PortProto, FwError, failed, Listing, listed, unlisted, FirewallBackend, tcp, udp,
  known_proto, check_rule,
}
use nft_okboy_fleet.Firewall.Comment.{comment_for, split_comment, managed_prefix, user_prefix}
use nft_okboy_fleet.Firewall.Guard.{guard_layout, guard_at_tail}

pub data Value : Type 0 where
  str : Text → Value
  num : ℤ → Value
  other_value : Value

-- The left side of a match: a payload's protocol and field, or what parseExpr passes over.
pub data Left : Type 0 where
  payload : Text → Text → Left
  iif syn_flags other_left : Left

pub data Expr : Type 0 where
  matches : Left → Value → Expr
  accept drop other_expr : Expr

-- A rule object as it is sent, and as it is listed (nftRule).
pub record NewRule : Type 0 where
  pub comment : Text
  pub expr : List Expr

pub record NftRule : Type 0 where
  pub handle : ℤ
  pub comment : Text
  pub expr : List Expr

pub data Command : Type 0 where
  add_table add_chain : Command
  insert append : NewRule → Command
  delete : ℤ → Command

-- `nft -j -f -` on a program (true when it succeeds), and `nft -j -a list chain` with the rule
-- objects of its output, `none` when it fails.
pub record Nft : Type 1 where
  pub Kernel : Type 0
  pub run : List Command → Kernel → Bool × Kernel
  pub list : Kernel → Option (List NftRule)

abbrev pub saddr : Text
saddr = text "saddr"

abbrev pub dport : Text
dport = text "dport"

-- json.Unmarshal of the right side into a string or an int, which a failure leaves alone.
abbrev pub set_ip : Value → Rule → Rule
set_ip (str ip) r = record r { ip = ip }
set_ip (num n) r = r
set_ip other_value r = r

abbrev pub set_port : Value → Rule → Rule
set_port (num port) r = record r { port = port }
set_port (str s) r = r
set_port other_value r = r

abbrev pub set_proto : Text → Rule → Rule
set_proto protocol r = if known_proto protocol then record r { proto = protocol } else r

-- One round of parseExpr.
unfoldable pub parse_one : Expr → Rule → Rule
parse_one (matches (payload protocol field) right) r =
    if field == saddr
    then set_ip right r
    else if field == dport
    then set_proto protocol (set_port right r)
    else r
parse_one (matches iif right) r = r
parse_one (matches syn_flags right) r = r
parse_one (matches other_left right) r = r
parse_one accept r = r
parse_one drop r = r
parse_one other_expr r = r

unfoldable pub parse_expr : List Expr → Rule → Rule
parse_expr [] r = r
parse_expr (e ∷ es) r = parse_expr es (parse_one e r)

-- Rule{Handle: …, Comment: …} before parseExpr.
abbrev pub blank : ℤ → Text → Rule
blank handle comment = record {
  handle = handle;
  ip = [];
  port = pos 0;
  proto = [];
  user = [];
  group = [];
  comment = comment;
}

unfoldable pub rule_of : NftRule → Rule
unfolding parse_expr
rule_of r = parse_expr r.expr (blank r.handle r.comment)

-- `parse_ip` is net.ParseIP with nil as `none`, `is_v4` whether To4 of the parsed address is there.
module _ (nft : Nft) (parse_ip : Text → Option Text) (is_v4 : Text → Bool) (prefix : Text) where
  unfoldable pub is_ipv6 : Text → Bool
  is_ipv6 ip = elim (parse_ip ip) [ none ↦ false | some parsed ↦ not (is_v4 parsed) && has b':' ip ]

  unfoldable pub match_expr : Text → ℤ → Text → List Expr
  match_expr ip port proto =
      matches (payload (if is_ipv6 ip then text "ip6" else text "ip") saddr) (str ip)
      ∷ matches (payload proto dport) (num port)
      ∷ []

  abbrev pub error_unless : Bool × nft.Kernel → Option FwError × nft.Kernel
  error_unless (ran, k) = (if ran then none else some failed, k)

  unfoldable pub ensure_base : nft.Kernel → Option FwError × nft.Kernel
  ensure_base k = error_unless (nft.run (add_table ∷ add_chain ∷ []) k)

  abbrev pub allow_rule : Text → ℤ → Text → Text → Text → NewRule
  allow_rule ip port user proto group = record {
    comment = comment_for prefix user group;
    expr = match_expr ip port proto ++ accept ∷ [];
  }

  unfoldable pub add_rule : Text → ℤ → Text → Text → Text → nft.Kernel → Option FwError × nft.Kernel
  add_rule ip port user proto group k = elim (check_rule parse_ip ip port proto) [
    | some e ↦ (some e, k)
    | none ↦ error_unless (nft.run (insert (allow_rule ip port user proto group) ∷ []) k)
  ]

  unfoldable pub delete_by_handle : ℤ → nft.Kernel → Option FwError × nft.Kernel
  delete_by_handle handle k = error_unless (nft.run (delete handle ∷ []) k)

  -- listChain
  unfoldable pub list_chain : nft.Kernel → Option (List Rule)
  unfolding rule_of
  list_chain k = elim (nft.list k) [ none ↦ none | some rs ↦ some (map rule_of rs) ]

  abbrev pub with_owner : Rule → Rule
  with_owner r =
      let (user, group) = split_comment prefix r.comment in record r { user = user; group = group }

  -- The loop of listFiltered.
  unfoldable pub filtered : Text → List Rule → List Rule
  filtered want [] = []
  filtered want (r ∷ chain) =
      if has_prefix r.comment want then with_owner r ∷ filtered want chain else filtered want chain

  unfoldable pub list_filtered : Text → nft.Kernel → Listing
  unfolding list_chain filtered
  list_filtered want k = elim (list_chain k) [
    | none ↦ unlisted failed
    | some chain ↦ listed (filtered want chain)
  ]

  unfoldable pub list_user_rules : Text → nft.Kernel → Listing × nft.Kernel
  unfolding list_filtered
  list_user_rules user k = (list_filtered (user_prefix prefix user) k, k)

  unfoldable pub list_managed : nft.Kernel → Listing × nft.Kernel
  unfolding list_filtered
  list_managed k = (list_filtered (managed_prefix prefix) k, k)

  -- The loop of RemoveRule: the handle of the first rule that is meant.
  unfoldable pub handle_for : Text → ℤ → Text → Text → List Rule → Option ℤ
  handle_for ip port proto want [] = none
  handle_for ip port proto want (r ∷ rules) =
      if (r.ip == ip) && (r.port == port) && (r.proto == proto) && (r.comment == want)
      then some r.handle
      else handle_for ip port proto want rules

  unfoldable pub remove_listed :
      Text → ℤ → Text → Text → Listing → nft.Kernel → Option FwError × nft.Kernel
  unfolding handle_for delete_by_handle
  remove_listed ip port proto want (unlisted e) k = (some e, k)
  remove_listed ip port proto want (listed rules) k = elim (handle_for ip port proto want rules) [
    | none ↦ (none, k)
    | some handle ↦ delete_by_handle handle k
  ]

  unfoldable pub remove_rule :
      Text → ℤ → Text → Text → Text → nft.Kernel → Option FwError × nft.Kernel
  unfolding remove_listed list_user_rules
  remove_rule ip port user proto group k =
      remove_listed ip port proto (comment_for prefix user group) (list_user_rules user k).0 k

  abbrev pub guard_comment : Text
  guard_comment = prefix ++ text "-guard"

  -- guardRule: the loopback bypass for the zero PortProto, else a drop.
  unfoldable pub guard_expr : PortProto → List Expr
  guard_expr p =
      if p.port == pos 0
      then matches iif (str (text "lo")) ∷ accept ∷ []
      else (let port = matches (payload p.proto dport) (num p.port) in
          if p.proto == tcp
          then port ∷ matches syn_flags (str (text "syn")) ∷ drop ∷ []
          else port ∷ drop ∷ [])

  abbrev pub guard_rule : PortProto → NewRule
  guard_rule p = record { comment = guard_comment; expr = guard_expr p }

  -- The chain's rules of the guard.
  abbrev pub guard_rules : List Rule → List Rule
  guard_rules chain = keep (λ r. r.comment == guard_comment) chain

  -- The program that replaces the guard.
  unfoldable pub guard_program : List Rule → List PortProto → List Command
  guard_program guard want =
      map (λ r. delete r.handle) guard ++ map (λ p. append (guard_rule p)) want

  unfoldable pub sync_chain : List PortProto → List Rule → nft.Kernel → Option FwError × nft.Kernel
  unfolding guard_program
  sync_chain want chain k =
      if guard_at_tail chain (guard_rules chain) want
      then (none, k)
      else error_unless (nft.run (guard_program (guard_rules chain) want) k)

  unfoldable pub sync_guard : List PortProto → nft.Kernel → Option FwError × nft.Kernel
  unfolding sync_chain list_chain
  sync_guard ports k = elim (list_chain k) [
    | none ↦ (some failed, k)
    | some chain ↦ sync_chain (guard_layout ports) chain k
  ]

  abbrev pub nft_backend : FirewallBackend
  nft_backend = record {
    State = nft.Kernel;
    ensure_base = ensure_base;
    add_rule = add_rule;
    remove_rule = remove_rule;
    list_user_rules = list_user_rules;
    delete_by_handle = delete_by_handle;
    list_managed = list_managed;
    merges_same_match = false;
    sync_guard = some sync_guard;
  }
