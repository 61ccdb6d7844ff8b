-- ===== src/Firewall/Tests.antt =====
-- The firewall's theorems at concrete rules, over the mock without a host's own rules and always up.
use nft_okboy_fleet.Prelude.{
  true, ◌↔◌, Bool, ◌⊎◌, ◌==◌, ◌≤◌, ◌<◌, ◌≡◌, refl, ap, ◌≢◌, false, ◌&&◌, not, none, some, [], ◌∷◌,
  arith, if◌then◌else◌, ◌==◌, nat_discrete, Bool-discrete, ℤ, pos, ℤ-discrete, count, All, has,
  Text, Text-discrete, text, has_prefix, strip_prefix, cut,
}
use nft_okboy_fleet.Firewall.{
  Rule, PortProto, FirewallBackend, FwError, Action, tcp, is_host_rule, host_rule,
  PortProto-discrete,
}
use nft_okboy_fleet.Firewall.Comment.{comment_for, split_comment, group_from_comment}
use nft_okboy_fleet.Firewall.Comment.Laws.{
  split_comment-comment_for, group_from_comment-comment_for,
}
use nft_okboy_fleet.Firewall.Names.{valid_name}
use nft_okboy_fleet.Firewall.Names.Laws.{valid_name_iff, IsName}
use nft_okboy_fleet.Firewall.Lawful.{by_key, of_user, Key, Key-discrete, key_of, Laws}
use nft_okboy_fleet.Firewall.Mock.{
  MockBackend, mock, new_mock, add_rule, delete_by_handle, list_managed, list_user_rules, managed,
  host_action, drop_first,
}
use nft_okboy_fleet.Firewall.Mock.Lawful.{
  IsValid, mock_laws, add_IsValid, add_Adds, add_failed_same, delete_IsValid, delete_Removes,
  delete_failed_same,
}
use nft_okboy_fleet.Firewall.ReconcileAll.{
  reconcile_all, delete_all, scan, delete_step, add_all, add_step,
}
use nft_okboy_fleet.Firewall.ReconcileAll.Exact.{
  copies, wanted, reconcile_all_exact, reconcile_all_bound, reconcile_all_keeps,
  reconcile_all_idempotent,
}
use nft_okboy_fleet.Firewall.Manager.{
  reconcile, is_stale, remove_user_rules, remove_step, close_rules, close_step, open_groups,
  open_step, UserKey-discrete, group_key, rule_key,
}
use nft_okboy_fleet.Firewall.Manager.Loops.{opens, AreKnown}
use nft_okboy_fleet.Firewall.Lawful.{IsPlain}
use nft_okboy_fleet.Firewall.Manager.Reconcile.{
  IsCurrent, reconcile-opens, reconcile_closes, reconcile_frame,
}
use nft_okboy_fleet.Firewall.Manager.User.{remove_user_rules_lem}
use nft_okboy_fleet.Firewall.Guard.{guard_layout, loopback}
use nft_okboy_fleet.Firewall.Guard.Layout.{can_guard, guard_layout_counts}

-- The mock where the host has no rules and the firewall is up.
abbrev pub plain : MockBackend → MockBackend
plain m = record m { down = false; host_rules = [] }

abbrev pub plain_mock : FirewallBackend
plain_mock = record {
  State = MockBackend;
  ensure_base = mock.ensure_base;
  add_rule = λ ip port user proto group m. add_rule ip port user proto group (plain m);
  remove_rule = mock.remove_rule;
  list_user_rules = list_user_rules;
  delete_by_handle = λ h m. delete_by_handle h (plain m);
  list_managed = list_managed;
  merges_same_match = false;
  sync_guard = mock.sync_guard;
}

abbrev pub prefix : Text
prefix = text "p"

pub plain_valid : (m : MockBackend) → IsValid prefix m → IsValid prefix (plain m)
plain_valid m v = record { prefix_is = v.prefix_is; fresh = v.fresh; distinct = v.distinct }

abbrev pub plain_laws : Laws plain_mock
plain_laws =
    let laws = mock_laws prefix in
    record {
      prefix = prefix;
      rules = managed;
      IsValid = IsValid prefix;
      unique = laws.unique;
      list_valid = laws.list_valid;
      list_keeps = laws.list_keeps;
      list_all = laws.list_all;
      list_user_valid = laws.list_user_valid;
      list_user_keeps = laws.list_user_keeps;
      list_user_all = laws.list_user_all;
      add_valid = λ k m v. add_IsValid prefix k (plain m) (plain_valid m v);
      add_done = λ k m named v ok. add_Adds prefix k (plain m) (plain_valid m v) ok;
      add_failed = λ k m bad. ap managed (add_failed_same prefix k (plain m) bad);
      delete_valid = λ h m v. delete_IsValid prefix h (plain m) (plain_valid m v);
      delete_done = λ h m v ok. delete_Removes prefix h (plain m) (plain_valid m v) ok;
      delete_failed = λ h m bad. ap managed (delete_failed_same prefix h (plain m) bad);
    }

abbrev alice : Text
alice = text "alice"

abbrev old_ip : Text
old_ip = text "192.0.2.1"

abbrev new_ip : Text
new_ip = text "192.0.2.2"

abbrev ssh : Text
ssh = text "ssh"

abbrev old_key : Key
old_key = record { ip = old_ip; proto = tcp; user = alice; group = ssh; port = pos 22 }

abbrev new_key : Key
new_key = record { ip = new_ip; proto = tcp; user = alice; group = ssh; port = pos 22 }

-- One rule, at the old address.
abbrev start : MockBackend
start = (add_rule old_ip (pos 22) alice tcp ssh (new_mock prefix)).1

pub empty_IsValid : IsValid prefix (new_mock prefix)
unfolding new_mock
empty_IsValid = record { prefix_is = refl; fresh = λ n h. refl; distinct = λ h. ground arith }

start_IsValid : IsValid prefix start
start_IsValid = add_IsValid prefix old_key (new_mock prefix) empty_IsValid

abbrev rule_at : Text → Rule
rule_at ip = record {
  handle = pos 0;
  ip = ip;
  port = pos 22;
  proto = tcp;
  user = alice;
  group = ssh;
  comment = [];
}

pub no_host_rule :
    (k : Key) (s : MockBackend) (e : FwError)
    → (add_rule k.ip k.port k.user k.proto k.group (plain s)).0 ≡ some e
    → is_host_rule e ≡ false
unfolding add_rule host_action
no_host_rule k s e h = ground (arith, h)

never_host_rule :
    (k : Key) (s : MockBackend) (a : Action)
    → (add_rule k.ip k.port k.user k.proto k.group (plain s)).0 ≢ some (host_rule a)
unfolding add_rule host_action
never_host_rule k s a h = ground (arith, h)

deletes : (h : ℤ) (s : MockBackend) → (delete_by_handle h (plain s)).0 ≡ none
unfolding delete_by_handle
deletes h s = ground arith

alice-IsPlain : IsPlain alice
alice-IsPlain = (
  (ground arith, (ground arith, (ground arith, (ground arith, (ground arith, tt))))),
  ground arith,
)

ssh-IsPlain : IsPlain ssh
ssh-IsPlain = ((ground arith, (ground arith, (ground arith, tt))), ground arith)

-- From the rule at the old address to the one at the new address.
reconcile_all_exact_example :
    copies new_key (managed (reconcile_all plain_mock (rule_at new_ip ∷ []) start).state)
    ≡ wanted new_key (rule_at new_ip ∷ [])
unfolding reconcile_all new_mock list_managed add_rule host_action delete_all scan has_prefix
    comment_for Text-discrete Key-discrete key_of delete_step delete_by_handle drop_first add_all
    add_step
reconcile_all_exact_example =
    reconcile_all_exact plain_mock plain_laws (rule_at new_ip ∷ []) start
      ((alice-IsPlain, ssh-IsPlain), tt) start_IsValid no_host_rule refl refl new_key

reconcile_all_bound_example :
    copies old_key (managed (reconcile_all plain_mock (rule_at new_ip ∷ []) start).state)
    ≤ wanted old_key (rule_at new_ip ∷ [])
unfolding reconcile_all new_mock list_managed add_rule host_action delete_all scan has_prefix
    comment_for Text-discrete Key-discrete key_of delete_step delete_by_handle drop_first add_all
    add_step
reconcile_all_bound_example =
    reconcile_all_bound plain_mock plain_laws (rule_at new_ip ∷ []) start
      ((alice-IsPlain, ssh-IsPlain), tt) start_IsValid refl old_key

reconcile_all_keeps_example :
    0 < copies old_key (managed (reconcile_all plain_mock (rule_at old_ip ∷ []) start).state)
unfolding reconcile_all new_mock list_managed add_rule host_action delete_all scan has_prefix
    comment_for Text-discrete Key-discrete key_of delete_step delete_by_handle drop_first add_all
    add_step
reconcile_all_keeps_example =
    reconcile_all_keeps plain_mock plain_laws (rule_at old_ip ∷ []) start
      ((alice-IsPlain, ssh-IsPlain), tt) start_IsValid old_key refl (ground arith)

-- One rule is there, and it is the desired one.
reconcile_all_idempotent_example :
    reconcile_all plain_mock (rule_at old_ip ∷ []) start
    ≡ record { added = 0; removed = 0; err = none; state = start }
unfolding reconcile_all new_mock list_managed add_rule host_action delete_all scan has_prefix
    comment_for Text-discrete Key-discrete key_of delete_step delete_by_handle drop_first add_all
    add_step
reconcile_all_idempotent_example =
    reconcile_all_idempotent plain_mock plain_laws (rule_at old_ip ∷ []) start (managed start) refl
      (λ k. ground arith)

abbrev ssh_port : Text × PortProto
ssh_port = (ssh, record { port = pos 22; proto = tcp })

ssh_AreKnown : AreKnown (ssh_port ∷ []) (ssh_port ∷ [])
ssh_AreKnown = ((ssh-IsPlain, ground arith), tt)

reconcile-opens_example :
    All
      (λ g.
        0
        < count
            (opens plain_mock plain_laws alice new_ip (ssh_port ∷ []) g)
            (managed (reconcile plain_mock prefix alice new_ip (ssh_port ∷ []) start).state))
      (ssh_port ∷ [])
unfolding reconcile reconcile_all new_mock list_user_rules list_managed add_rule host_action
    has_prefix comment_for Text-discrete Key-discrete key_of delete_by_handle drop_first close_rules
    close_step is_stale group_from_comment strip_prefix cut open_groups open_step UserKey-discrete
    group_key rule_key
reconcile-opens_example =
    reconcile-opens plain_mock plain_laws alice new_ip (ssh_port ∷ []) alice-IsPlain ssh_AreKnown
      start start_IsValid never_host_rule refl

reconcile_closes_example :
    All
      (λ r.
        (group_from_comment prefix alice r.comment ≡ [])
        ⊎ IsCurrent plain_mock plain_laws alice new_ip
            (ssh_port ∷ [])
            alice-IsPlain
            ssh_AreKnown
            start
            start_IsValid
            r)
      (managed (reconcile plain_mock prefix alice new_ip (ssh_port ∷ []) start).state)
unfolding reconcile reconcile_all new_mock list_user_rules list_managed add_rule host_action
    has_prefix comment_for Text-discrete Key-discrete key_of delete_by_handle drop_first close_rules
    close_step is_stale group_from_comment strip_prefix cut open_groups open_step UserKey-discrete
    group_key rule_key
reconcile_closes_example =
    reconcile_closes plain_mock plain_laws alice new_ip (ssh_port ∷ []) alice-IsPlain ssh_AreKnown
      start start_IsValid (list_user_rules alice start).1.rules refl deletes

abbrev bob_key : Key
bob_key = record { ip = old_ip; proto = tcp; user = text "bob"; group = ssh; port = pos 22 }

-- A rule of each of two users.
abbrev shared : MockBackend
shared = (add_rule old_ip (pos 22) (text "bob") tcp ssh start).1

shared_IsValid : IsValid prefix shared
shared_IsValid = add_IsValid prefix bob_key start start_IsValid

abbrev of_others : Rule → Bool
of_others r = not (of_user prefix alice r)

reconcile_frame_example :
    count of_others
      (managed (reconcile plain_mock prefix alice new_ip (ssh_port ∷ []) shared).state)
    ≡ 1
unfolding new_mock add_rule host_action has_prefix comment_for Text-discrete
reconcile_frame_example =
    reconcile_frame plain_mock plain_laws alice new_ip (ssh_port ∷ []) alice-IsPlain ssh_AreKnown
      shared shared_IsValid of_others (λ r h. ground (arith, h))

remove_user_rules_lem_example :
    count (by_key old_key) (managed (remove_user_rules plain_mock alice start).1)
    ≡ count (λ r. by_key old_key r && not (r.user == alice)) (managed start)
unfolding reconcile reconcile_all new_mock list_user_rules list_managed add_rule host_action
    has_prefix comment_for Text-discrete Key-discrete key_of delete_by_handle drop_first
    remove_user_rules remove_step
remove_user_rules_lem_example =
    remove_user_rules_lem plain_mock plain_laws alice start start_IsValid refl (by_key old_key)

ssh_ne_loopback : ssh_port.1 ≢ loopback
unfolding PortProto-discrete
ssh_ne_loopback e = absurd (port_ne (ap (λ p. p.port) e))
  where
    port_ne : pos 22 ≢ pos 0
    port_ne h = ground arith

guard_layout_counts_example :
    count (λ q. q == ssh_port.1) (guard_layout (ssh_port.1 ∷ ssh_port.1 ∷ []))
    ≡ (if can_guard ssh_port.1 && has ssh_port.1 (ssh_port.1 ∷ ssh_port.1 ∷ []) then 1 else 0)
guard_layout_counts_example =
    guard_layout_counts (ssh_port.1 ∷ ssh_port.1 ∷ []) ssh_port.1 ssh_ne_loopback

split_comment-comment_for_example :
    split_comment prefix (comment_for prefix alice ssh) ≡ (alice, ssh)
split_comment-comment_for_example = split_comment-comment_for prefix alice ssh alice-IsPlain.0

group_from_comment-comment_for_example :
    group_from_comment prefix alice (comment_for prefix alice ssh)
    ≡ (if alice == alice then ssh else [])
group_from_comment-comment_for_example =
    group_from_comment-comment_for prefix alice alice ssh alice-IsPlain.0 alice-IsPlain.0
      ssh-IsPlain.0 ssh-IsPlain.1

valid_name_iff_example : (valid_name alice ≡ true) ↔ IsName alice
valid_name_iff_example = valid_name_iff alice
