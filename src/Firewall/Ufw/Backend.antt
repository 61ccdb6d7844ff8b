-- ===== src/Firewall/Ufw/Backend.antt =====
-- The operations of the ufw backend (internal/firewall/ufw.go). The warnings that it logs once are left
-- out, and the lock is held to the end of each operation.
use nft_okboy_fleet.Prelude.{
  Bool, true, ◌&&◌, Option, none, some, List, [], ◌∷◌, map, if◌then◌else◌, ◌==◌, nat_discrete,
  Bool-discrete, ℤ, ℤ-discrete, keep, Text, Text-discrete, has_prefix,
}
use nft_okboy_fleet.Firewall.{
  Rule, FwError, failed, inactive, host_rule, Listing, listed, unlisted, FirewallBackend,
  check_rule,
}
use nft_okboy_fleet.Firewall.Comment.{comment_for, user_prefix}
use nft_okboy_fleet.Firewall.Ufw.{
  Ufw, UfwLibrary, UfwLine, status, status_numbered, allow_from, delete_rule, ufw_inactive,
  parse_ufw_status, host_rule_for,
}

-- What listManagedLines returns.
pub data Lines : Type 0 where
  managed_lines : List UfwLine → Lines
  no_lines : FwError → Lines

abbrev pub rules_of : List UfwLine → List Rule
rules_of = map (λ l. l.r)

-- The number of the first line that passes the test.
unfoldable pub number_of : (Rule → Bool) → List UfwLine → Option ℤ
number_of p [] = none
number_of p (l ∷ lines) = if p l.r then some l.num else number_of p lines

module _ (ufw : Ufw) (lib : UfwLibrary) (prefix : Text) where
  abbrev pub outcome : Option Text × ufw.Host → Option FwError × ufw.Host
  outcome (none, s) = (some failed, s)
  outcome (some output, s) = (none, s)

  -- u.lock() in front of an operation.
  unfoldable pub with_lock :
      (ufw.Host → Option FwError × ufw.Host) → ufw.Host → Option FwError × ufw.Host
  with_lock op s = let (taken, s') = ufw.lock s in if taken then op s' else (some failed, s')

  unfoldable pub ensure_base : ufw.Host → Option FwError × ufw.Host
  unfolding with_lock
  ensure_base = with_lock (λ s. outcome (ufw.run status s))

  unfoldable pub read_lines : Option Text → Lines
  read_lines none = no_lines failed
  read_lines (some output) =
      if ufw_inactive lib prefix output
      then no_lines inactive
      else managed_lines (parse_ufw_status lib prefix output)

  unfoldable pub list_managed_lines : ufw.Host → Lines × ufw.Host
  unfolding read_lines
  list_managed_lines s = let (output, s') = ufw.run status_numbered s in (read_lines output, s')

  -- From the output of `ufw status numbered` on.
  unfoldable pub add_over :
      Text → ℤ → Text → Text → Text → Option Text → ufw.Host → Option FwError × ufw.Host
  add_over ip port user proto group none s = (some failed, s)
  add_over ip port user proto group (some output) s =
      if ufw_inactive lib prefix output
      then (some inactive, s)
      else (elim (host_rule_for lib prefix output ip port proto) [
        | some action ↦ (some (host_rule action), s)
        | none ↦ outcome (ufw.run (allow_from ip port proto (comment_for prefix user group)) s)
      ])

  unfoldable pub add_locked : Text → ℤ → Text → Text → Text → ufw.Host → Option FwError × ufw.Host
  unfolding add_over
  add_locked ip port user proto group s = elim (check_rule lib.parse_ip ip port proto) [
    | some e ↦ (some e, s)
    | none ↦
        let (output, s') = ufw.run status_numbered s in add_over ip port user proto group output s'
  ]

  unfoldable pub add_rule : Text → ℤ → Text → Text → Text → ufw.Host → Option FwError × ufw.Host
  unfolding with_lock add_locked
  add_rule ip port user proto group = with_lock (add_locked ip port user proto group)

  -- deleteNumber, when a line was found.
  unfoldable pub delete_number : Option ℤ → ufw.Host → Option FwError × ufw.Host
  delete_number none s = (none, s)
  delete_number (some num) s = outcome (ufw.run (delete_rule num) s)

  unfoldable pub delete_first : (Rule → Bool) → Lines → ufw.Host → Option FwError × ufw.Host
  unfolding delete_number number_of
  delete_first p (no_lines e) s = (some e, s)
  delete_first p (managed_lines lines) s = delete_number (number_of p lines) s

  unfoldable pub delete_locked : (Rule → Bool) → ufw.Host → Option FwError × ufw.Host
  unfolding delete_first list_managed_lines
  delete_locked p s = let (lines, s') = list_managed_lines s in delete_first p lines s'

  unfoldable pub remove_rule : Text → ℤ → Text → Text → Text → ufw.Host → Option FwError × ufw.Host
  unfolding with_lock delete_locked
  remove_rule ip port user proto group = with_lock (
      delete_locked (λ r.
        (r.ip == ip)
        && (r.port == port)
        && (r.proto == proto)
        && (r.comment == comment_for prefix user group)))

  unfoldable pub delete_by_handle : ℤ → ufw.Host → Option FwError × ufw.Host
  unfolding with_lock delete_locked
  delete_by_handle handle = with_lock (delete_locked (λ r. r.handle == handle))

  abbrev pub listing_of : (Rule → Bool) → Lines → Listing
  listing_of p (no_lines e) = unlisted e
  listing_of p (managed_lines lines) = listed (keep p (rules_of lines))

  unfoldable pub list_locked : (Rule → Bool) → ufw.Host → Listing × ufw.Host
  unfolding list_managed_lines
  list_locked p s =
      let (taken, s₁) = ufw.lock s in
      if taken
      then (let (lines, s₂) = list_managed_lines s₁ in (listing_of p lines, s₂))
      else (unlisted failed, s₁)

  unfoldable pub list_user_rules : Text → ufw.Host → Listing × ufw.Host
  unfolding list_locked
  list_user_rules user = list_locked (λ r. has_prefix r.comment (user_prefix prefix user))

  unfoldable pub list_managed : ufw.Host → Listing × ufw.Host
  unfolding list_locked
  list_managed = list_locked (λ r. true)

  abbrev pub ufw_backend : FirewallBackend
  ufw_backend = record {
    State = ufw.Host;
    ensure_base = ensure_base;
    add_rule = add_rule;
    remove_rule = remove_rule;
    list_user_rules = list_user_rules;
    delete_by_handle = delete_by_handle;
    list_managed = list_managed;
    merges_same_match = true;
    sync_guard = none;
  }
