-- ===== src/Server/Peer.antt =====
-- Whose address a request counts for (internal/server/middleware.go: clientIP, requestIP).
use nft_okboy_fleet.Prelude.{
  ℕ, ◌≡◌, ◌≢◌, true, false, Option, [], ◌∷◌, ◌++◌, arith, ◌==◌, nat_discrete, Bool-discrete,
  ℤ-discrete, any, Text, Text-discrete,
}
use nft_okboy_fleet.Server.{
  Config, Request, last_part, host_only, is_trusted_proxy, forwarded_ip, client_ip,
}

any_mid : (sep : ℕ) (before after : Text) → any (λ x. x == sep) (before ++ sep ∷ after) ≡ true
any_mid sep [] after = ground (arith)
any_mid sep (c ∷ before) after = let rest = any_mid sep before after in ground (arith, rest)

last_part_lem :
    (sep : ℕ) (before after : Text)
    → any (λ x. x == sep) after ≡ false
    → last_part sep (before ++ sep ∷ after) ≡ after
unfolding last_part
last_part_lem sep [] after h = ground (arith, h)
last_part_lem sep (c ∷ before) after h =
    let rest = last_part_lem sep before after h in
    let here = any_mid sep before after in ground (arith, rest, here)

module _ (split_host_port : Text → Option Text) (canonical_ip trim : Text → Text)
    (cfg : Config) where
  -- Behind a trusted proxy, without X-Real-IP, the entry that the proxy appended to
  -- X-Forwarded-For is the one that counts, whatever the client put before it.
  pub client_ip_appended :
      (r : Request) (sent seen : Text)
      → is_trusted_proxy cfg (host_only split_host_port r.remote_addr) ≡ true
      → trim r.x_real_ip ≡ []
      → any (λ x. x == b',') seen ≡ false
      → trim (sent ++ b',' ∷ seen) ≢ []
      → client_ip split_host_port canonical_ip trim cfg
          (record r { x_forwarded_for = sent ++ b',' ∷ seen })
        ≡ canonical_ip seen
  unfolding client_ip forwarded_ip
  client_ip_appended r sent seen trusted no_xri one nonempty =
      let last = last_part_lem b',' sent seen one in ground (arith, trusted, no_xri, nonempty, last)
