-- ===== src/Agent/Tests.antt =====
-- The agent's theorems at concrete answers, over the mock firewall.
use nft_okboy_fleet.Prelude.{
  has_prefix, Text-discrete, ℤ-discrete, nat_discrete, ◌≡◌, refl, ap, true, false, Option, none,
  some, List, [], ◌∷◌, Bool-discrete, pos, All, Text, text, subst,
}
use nft_okboy_fleet.Firewall.{PortProto, FwError, tcp}
use nft_okboy_fleet.Firewall.Lawful.{Key, key_of, Key-discrete}
use nft_okboy_fleet.Firewall.Comment.{comment_for}
use nft_okboy_fleet.Firewall.Names.{valid_name}
use nft_okboy_fleet.Firewall.Tests.{prefix, plain_mock, plain_laws, no_host_rule, empty_IsValid}
use nft_okboy_fleet.Firewall.Mock.{
  MockBackend, new_mock, managed, ensure_base, list_managed, add_rule, delete_by_handle,
  host_action, drop_first,
}
use nft_okboy_fleet.Firewall.Mock.Lawful.{IsValid, add_IsValid}
use nft_okboy_fleet.Firewall.ReconcileAll.{
  reconcile_all, delete_all, scan, delete_step, add_all, add_step,
}
use nft_okboy_fleet.Firewall.ReconcileAll.Exact.{copies, wanted}
use nft_okboy_fleet.Firewall.Mock.{sync_guard as mock_guard}
use nft_okboy_fleet.Agent.{
  HubRule, revoked, unavailable, answer, Options, AgentState, sanitize, filter_allowed, step, arith,
}
use nft_okboy_fleet.Agent.Filter.{IsAcceptable, filter-IsAcceptable}
use nft_okboy_fleet.Agent.OverNft.{nft_step-answer}
use nft_okboy_fleet.Firewall.Nft.{nft_backend}
use nft_okboy_fleet.Firewall.Nft.Lawful.{managed as managed_of}
use nft_okboy_fleet.Firewall.Nft.Tests.{
  table_runs, table, table_documented, empty_table, parse_ip, is_v4, prefix as nft_prefix,
}
use nft_okboy_fleet.Agent.Cycle.{
  GuardApart, rules-step_unavailable, rules-step_revoked, rules-step-answer, accepted,
}

-- Every text is taken for a canonical address.
abbrev canonical : Text → Option Text
canonical s = some s

abbrev sent : HubRule
sent = record {
  ip = text "192.0.2.1";
  port = pos 22;
  proto = tcp;
  user = text "alice";
  group = text "ssh";
}

abbrev opts : Options
opts = record { allowed_ports = pos 22 ∷ []; guard = true; has_state_file = true }

abbrev fresh_state : AgentState
fresh_state = record {
  was_revoked = false;
  warned_no_ports = false;
  unguarded = [];
  ports = [];
  have_ports = false;
  saved = false;
}

abbrev start : MockBackend
start = (add_rule sent.ip sent.port sent.user sent.proto sent.group (new_mock prefix)).1

abbrev sent_key : Key
sent_key = record {
  ip = sent.ip;
  proto = sent.proto;
  user = sent.user;
  group = sent.group;
  port = sent.port;
}

filter-IsAcceptable_example :
    All
      (IsAcceptable canonical (pos 22 ∷ []))
      (filter_allowed (sanitize canonical (sent ∷ [])) (pos 22 ∷ []))
filter-IsAcceptable_example = filter-IsAcceptable canonical (pos 22 ∷ []) (sent ∷ [])

start_IsValid : IsValid prefix start
start_IsValid = add_IsValid prefix sent_key (new_mock prefix) empty_IsValid

-- The mock's guard is the one function that it has.
guard_is :
    (sync : List PortProto → MockBackend → Option FwError × MockBackend)
    → some mock_guard ≡ some sync
    → mock_guard ≡ sync
guard_is sync h = ap (λ o. elim o [ none ↦ mock_guard | some f ↦ f ]) h

guard_apart : GuardApart plain_mock plain_laws canonical
unfolding ensure_base mock_guard
guard_apart = record {
  base_valid = λ s v. record { prefix_is = v.prefix_is; fresh = v.fresh; distinct = v.distinct };
  base_keeps = λ s. refl;
  guard_valid = λ sync h ports s v.
      subst (λ f. IsValid prefix (f ports s).1) (guard_is sync h)
        (record { prefix_is = v.prefix_is; fresh = v.fresh; distinct = v.distinct });
  guard_keeps =
      λ sync h ports s. subst (λ f. managed (f ports s).1 ≡ managed s) (guard_is sync h) refl;
}

rules-step_unavailable_example :
    managed (step plain_mock canonical true opts unavailable (fresh_state, start)).1 ≡ managed start
rules-step_unavailable_example =
    rules-step_unavailable plain_mock plain_laws canonical guard_apart true opts fresh_state start

rules-step_revoked_example :
    copies sent_key (managed (step plain_mock canonical true opts revoked (fresh_state, start)).1)
    ≡ 0
unfolding step ensure_base reconcile_all list_managed add_rule new_mock host_action delete_all scan
    has_prefix comment_for Text-discrete delete_step delete_by_handle drop_first add_all ℤ-discrete
    sanitize filter_allowed mock_guard valid_name nat_discrete key_of Key-discrete add_step
rules-step_revoked_example =
    rules-step_revoked plain_mock plain_laws canonical guard_apart true opts fresh_state start
      start_IsValid refl refl sent_key

rules-step-answer_example :
    copies sent_key (
      managed
        (step plain_mock canonical true opts (answer (sent ∷ []) none) (fresh_state, start)).1)
    ≡ wanted sent_key (accepted plain_mock plain_laws canonical guard_apart true opts (sent ∷ []))
unfolding step ensure_base reconcile_all list_managed add_rule new_mock host_action delete_all scan
    has_prefix comment_for Text-discrete delete_step delete_by_handle drop_first add_all ℤ-discrete
    sanitize filter_allowed mock_guard valid_name nat_discrete key_of Key-discrete add_step
rules-step-answer_example =
    rules-step-answer plain_mock plain_laws canonical guard_apart true opts fresh_state start
      (sent ∷ []) none start_IsValid no_host_rule refl refl refl sent_key

nft_step-answer_example :
    copies sent_key (
      managed_of table parse_ip is_v4 nft_prefix
        (step
          (nft_backend table parse_ip is_v4 nft_prefix)
          canonical
          true
          opts
          (answer (sent ∷ []) none)
          (fresh_state, empty_table)).1.rules)
    ≡ 1
unfolding sanitize filter_allowed valid_name nat_discrete key_of Key-discrete Text-discrete
    ℤ-discrete
nft_step-answer_example =
    nft_step-answer table parse_ip is_v4 nft_prefix table_documented canonical table_runs
      (λ sent ip h e. ground (arith, e)) true opts fresh_state empty_table (sent ∷ []) none sent_key
