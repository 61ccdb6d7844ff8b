-- ===== src/Db/Statements/OnNodes.antt =====
-- The statements on nodes and targets (internal/db) keep the keys unique.
use nft_okboy_fleet.Prelude.{
  refl, not, some, [], ◌∷◌, ◌++◌, arith, if◌then◌else◌, ◌==◌, nat_discrete, Bool-discrete,
  ℤ-discrete, keep, any, Text-discrete, ==_eq,
}
use nft_okboy_fleet.Db.{Db, update}
use nft_okboy_fleet.Db.Nodes.{
  null_text, is_target, node_id_is, insert_node, create_node, delete_node, touch_node,
  update_node_report, add_group_target, remove_group_target,
}
use nft_okboy_fleet.Db.Unique.{keep-Unique, keep-Named}
use nft_okboy_fleet.Db.Keys.{
  UniqueKeys, node_named, hashed, target_of, query-UniqueKeys, nodes-UniqueKeys,
  insert_node-UniqueKeys, write-UniqueKeys,
}
use nft_okboy_fleet.Db.Statements.{
  NodeStatement, exec_node, creates_node, deletes_node, touches_node, updates_node_report,
  adds_group_target, removes_group_target,
}
use nft_okboy_fleet.Db.Statements.OnGroups.{upsert-Unique}

pub exec_node-UniqueKeys : (q : NodeStatement) (d : Db) → UniqueKeys d → UniqueKeys (exec_node q d)
unfolding exec_node create_node delete_node touch_node update_node_report add_group_target
    remove_group_target
exec_node-UniqueKeys (creates_node name hash) d v =
    query-UniqueKeys (insert_node name hash) d (insert_node-UniqueKeys name hash) v
exec_node-UniqueKeys (deletes_node id) d v =
    write-UniqueKeys
      (λ d. record d {
        nodes = keep (λ n. not (node_id_is id n)) d.nodes;
        group_targets = keep (λ t. not (t.node_id == id)) d.group_targets;
      })
      d
      (λ d' (us, gs, ports, ms, ns, hs, ts). (
        us,
        gs,
        ports,
        ms,
        keep-Named node_named node_id_is (λ n. not (node_id_is id n)) d'.next_node d'.nodes ns,
        keep-Unique hashed (λ n. not (node_id_is id n)) d'.nodes hs,
        keep-Unique target_of (λ t. not (t.node_id == id)) d'.group_targets ts,
      ))
      v
exec_node-UniqueKeys (touches_node id) d v =
    write-UniqueKeys
      (λ d. record d {
        nodes = update (node_id_is id) (λ n. record n { last_seen = some d.now }) d.nodes;
      })
      d
      (λ d' v'.
        nodes-UniqueKeys (node_id_is id) (λ n. record n { last_seen = some d'.now }) d' (λ n. refl)
          (λ n. refl) (λ n. refl) v')
      v
exec_node-UniqueKeys (updates_node_report id version backend) d v =
    write-UniqueKeys
      (λ d. record d {
        nodes =
            update (λ n. n.id == id)
              (λ n. record n {
                last_seen = some d.now;
                agent_version = null_text version;
                agent_backend = null_text backend;
              })
              d.nodes;
      })
      d
      (λ d' v'.
        nodes-UniqueKeys (λ n. n.id == id)
          (λ n. record n {
            last_seen = some d'.now;
            agent_version = null_text version;
            agent_backend = null_text backend;
          })
          d' (λ n. refl) (λ n. refl) (λ n. refl) v')
      v
exec_node-UniqueKeys (adds_group_target group_id node_id port proto) d v =
    write-UniqueKeys
      (λ d. record d {
        group_targets =
            if any (is_target group_id node_id) d.group_targets
            then update (is_target group_id node_id) (λ t. record t { port = port; proto = proto })
                d.group_targets
            else d.group_targets
              ++ record { group_id = group_id; node_id = node_id; port = port; proto = proto } ∷ [];
      })
      d
      (λ d' (us, gs, ports, ms, ns, hs, ts). (
        us,
        gs,
        ports,
        ms,
        ns,
        hs,
        upsert-Unique target_of (group_id, node_id)
            (record { group_id = group_id; node_id = node_id; port = port; proto = proto })
            (λ t. record t { port = port; proto = proto }) d'.group_targets
            (λ j h. (==_eq group_id j.0 (ground (arith, h)), ==_eq node_id j.1 (ground (arith, h))))
            (λ j t. refl) ts,
      ))
      v
exec_node-UniqueKeys (removes_group_target group_id node_id) d v =
    write-UniqueKeys
      (λ d. record d {
        group_targets = keep (λ t. not (is_target group_id node_id t)) d.group_targets;
      })
      d
      (λ d' (us, gs, ports, ms, ns, hs, ts). (
        us,
        gs,
        ports,
        ms,
        ns,
        hs,
        keep-Unique target_of (λ t. not (is_target group_id node_id t)) d'.group_targets ts,
      ))
      v
