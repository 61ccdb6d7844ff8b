-- ===== src/Firewall/None.antt =====
-- The backend of a hub that manages no local firewall (internal/firewall/none.go).
use nft_okboy_fleet.Prelude.{false, none, []}
use nft_okboy_fleet.Firewall.{FirewallBackend, listed}

abbrev none_backend : FirewallBackend
none_backend = record {
  State = Unit;
  ensure_base = λ s. (none, s);
  add_rule = λ ip port user proto group s. (none, s);
  remove_rule = λ ip port user proto group s. (none, s);
  list_user_rules = λ user s. (listed [], s);
  delete_by_handle = λ handle s. (none, s);
  list_managed = λ s. (listed [], s);
  merges_same_match = false;
  sync_guard = none;
}
