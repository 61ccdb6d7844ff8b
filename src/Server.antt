-- ===== src/Server.antt =====
-- The HTTP server (internal/server): its configuration, state and requests, and whose address a
-- request counts for (middleware.go). A handler that holds fwMu is one step on the state; reading
-- JSON, routing and writing responses are outside.
pub mod Peer
pub mod Handler
pub mod Knock
mod Tests
pub mod Totp
pub mod Maintain
pub mod Admin
pub mod Toggle
pub mod Status
pub mod Gate
pub mod Node
use nft_okboy_fleet.Prelude.{
  ℕ, zero, suc, ◌+◌, ◌-◌, ◌*◌, ◌/◌, ◌%◌, ◌^◌, ◌≤◌, ◌<◌, ◌≡◌, refl, sym, ap, ◌∙◌, ◌≢◌, ◌↔◌, ◌⊎◌, inl,
  inr, Bool, true, false, ◌&&◌, ◌||◌, not, Option, none, some, List, [], ◌∷◌, ◌++◌, map, arith, ltb,
  leb, if◌then◌else◌, ◌==◌, ==_refl, nat_discrete, Bool-discrete, Bool-cases, Option-cases, is_some,
  ℤ, pos, negsuc, ℤ-discrete, pos_part, neg_part, sub_ℕ, ◌-ℤ◌, ltℤ, leℤ, wrap64, neg64, length,
  count, keep, any, null, All, All-append, has, Text, Text-discrete, text, has_prefix, strip_prefix,
  cut, count_ext, count-keep, count-le, count_mono, count-append,
}
use nft_okboy_fleet.Auth.{Message}
use nft_okboy_fleet.Db.{Db}
use nft_okboy_fleet.Firewall.{FirewallBackend, FwError}

-- The fields of config.Config that the handlers read.
pub record Config : Type 0 where
  pub trusted_proxies : List Text
  pub signature_ttl : ℕ
  pub throttle_max_failures : ℕ
  pub throttle_window : ℕ
  pub anomaly_window : ℕ
  pub anomaly_max_changes : ℕ
  pub totp_replay_protection : Bool
  pub require_admin_totp : Bool
  pub nft_guard : Bool
  pub cleanup_max_age_days : ℕ
  pub allowed_ports : List ℤ

-- An *http.Request: a header that is absent reads as the empty string.
pub record Request : Type 0 where
  pub path : Text
  pub remote_addr : Text
  pub authorization : Text
  pub x_real_ip : Text
  pub x_forwarded_for : Text
  pub x_totp_code : Text

pub record World (be : FirewallBackend) : Type 0 where
  pub db : Db
  pub fw : be.State
  pub last_cleanup : ℕ

-- strings.Split(text, sep) ends in this part.
unfoldable pub last_part : ℕ → Text → Text
last_part sep [] = []
last_part sep (c ∷ cs) =
    if any (λ x. x == sep) cs then last_part sep cs else if c == sep then cs else c ∷ cs

-- hostOnly: `split_host_port` is net.SplitHostPort's host, `none` on an error.
unfoldable pub host_only : (Text → Option Text) → Text → Text
host_only split_host_port remote_addr =
    if remote_addr == []
    then []
    else (elim (split_host_port remote_addr) [ some host ↦ host | none ↦ remote_addr ])

unfoldable pub is_trusted_proxy : Config → Text → Bool
unfolding has any
is_trusted_proxy cfg peer = has peer cfg.trusted_proxies

-- `canonical_ip` is firewall.CanonicalIP (the canonical form of one IP literal, else ""), `trim`
-- strings.TrimSpace.
module _ (split_host_port : Text → Option Text) (canonical_ip trim : Text → Text)
    (cfg : Config) where
  -- clientIP, for a request that a trusted proxy forwards.
  unfoldable pub forwarded_ip : Request → Text
  unfolding last_part
  forwarded_ip r =
      if not (trim r.x_real_ip == [])
      then canonical_ip (trim r.x_real_ip)
      else if not (trim r.x_forwarded_for == [])
      then canonical_ip (last_part b',' r.x_forwarded_for)
      else []

  unfoldable pub client_ip : Request → Text
  unfolding host_only is_trusted_proxy forwarded_ip
  client_ip r =
      let peer = host_only split_host_port r.remote_addr in
      if is_trusted_proxy cfg peer then forwarded_ip r else peer

  unfoldable pub request_ip : Request → Text
  unfolding client_ip
  request_ip r =
      let ip = client_ip r in if not (ip == []) then ip else host_only split_host_port r.remote_addr
