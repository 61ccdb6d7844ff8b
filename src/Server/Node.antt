-- ===== src/Server/Node.antt =====
-- The agents' side of the hub and the fleet view (internal/server/node.go).
use nft_okboy_fleet.Prelude.{
  ℕ, ◌+◌, Bool, false, not, Option, none, some, List, [], ◌∷◌, map, ltb, ◌==◌, nat_discrete,
  Bool-discrete, ℤ-discrete, length, Text, Text-discrete, text, has_prefix, strip_prefix,
}
use nft_okboy_fleet.Db.{Node}
use nft_okboy_fleet.Db.Nodes.{
  get_node_by_token_hash, update_node_report, desired_state_for_node, node_target_ports, list_nodes,
}
use nft_okboy_fleet.Firewall.{FirewallBackend}
use nft_okboy_fleet.Firewall.Comment.{comment_for}
use nft_okboy_fleet.Server.{Config, Request}
use nft_okboy_fleet.Server.Status.{ok_or}
use nft_okboy_fleet.Server.Totp.{admin}
use nft_okboy_fleet.Server.Handler.{
  Library, Response, NodeView, failure, node_state, fleet, Handler, next, ◌>>=◌, ◌>>◌, pure,
  require, attempt, internal, quietly, found,
}

abbrev pub bearer : Text
bearer = text "Bearer "

-- A node counts as online for a minute after its last contact.
unfoldable pub is_online : ℕ → Option ℕ → Bool
is_online now none = false
is_online now (some seen) = ltb now (seen + 60)

module _ (lib : Library) (cfg : Config) (be : FirewallBackend) (prefix : Text) where
  abbrev pub bad_token : Response
  bad_token = failure 401 "Missing or invalid node token"

  unfoldable pub auth_node : Request → Handler be Node
  unfolding ◌>>=◌ ◌>>◌ require internal found
  auth_node r = do
    require (has_prefix r.authorization bearer) bad_token
    let token = lib.trim (strip_prefix r.authorization bearer)
    require (not (token == [])) bad_token
    row ← internal (get_node_by_token_hash (lib.hash_token token))
    found (failure 401 "Invalid node token") row

  -- `version` and `backend` are the agent's headers.
  unfoldable pub node_desired_state : Request → Text → Text → Handler be Response
  unfolding ◌>>=◌ ◌>>◌ auth_node quietly internal pure
  node_desired_state r version backend = do
    node ← auth_node r
    quietly (update_node_report node.id version backend)
    desired ← internal (desired_state_for_node node.id)
    ports ← internal (node_target_ports node.id)
    pure (node_state node.name (map (λ d. (d, comment_for prefix d.user d.group)) desired) ports)

  abbrev pub view : ℕ → Node → ℕ → NodeView
  view now n rule_count = record {
    id = n.id;
    name = n.name;
    last_seen = n.last_seen;
    online = is_online now n.last_seen;
    version = n.agent_version;
    backend = n.agent_backend;
    rule_count = rule_count;
  }

  -- The loop over the nodes.
  unfoldable pub views : ℕ → List Node → Handler be (List NodeView)
  unfolding ◌>>=◌ attempt pure
  views now [] = pure []
  views now (n ∷ nodes) = do
    rules ← attempt (desired_state_for_node n.id)
    rest ← views now nodes
    pure (view now n (length (ok_or [] rules)) ∷ rest)

  unfoldable pub admin_list_nodes : Request → Handler be Response
  unfolding ◌>>=◌ ◌>>◌ admin internal views pure
  admin_list_nodes r = do
    admin lib cfg be r
    nodes ← internal list_nodes
    now ← (λ w. (next w.db.now, w))
    out ← views now nodes
    pure (fleet out)
