-- ===== src/Server/Gate.antt =====
-- The gate in front of every route (internal/server/middleware.go: throttleGate).
use nft_okboy_fleet.Prelude.{
  not, if◌then◌else◌, nat_discrete, Bool-discrete, ℤ-discrete, Text, Text-discrete, text,
  has_prefix,
}
use nft_okboy_fleet.Auth.{check_ip_throttle}
use nft_okboy_fleet.Firewall.{FirewallBackend}
use nft_okboy_fleet.Server.{Config, Request, request_ip}
use nft_okboy_fleet.Server.Handler.{Library, Response, failure, Handler, answered}

abbrev pub api_prefix : Text
api_prefix = text "/api/"

module _ (lib : Library) (cfg : Config) (be : FirewallBackend) where
  -- The handler behind the gate is `serve`.
  unfoldable pub throttle_gate : Handler be Response → Request → Handler be Response
  throttle_gate serve r w =
      if not (has_prefix r.path api_prefix)
      then serve w
      else (let ip = request_ip lib.split_host_port lib.canonical_ip lib.trim cfg r in
          let (throttled, d) =
            check_ip_throttle ip cfg.throttle_max_failures cfg.throttle_window w.db in
          if throttled
          then (
            answered (failure 429 "Too many failed attempts; try again later"),
            record w { db = d },
          )
          else serve (record w { db = d }))
