-- ===== src/Db/Statements/Kept.antt =====
-- Every sequence of writing queries (internal/db) keeps the keys of the tables unique.
use nft_okboy_fleet.Prelude.{
  List, [], ◌∷◌, ◌++◌, nat_discrete, Bool-discrete, ℤ-discrete, Text-discrete,
}
use nft_okboy_fleet.Db.{Db}
use nft_okboy_fleet.Db.Logs.{log_audit, record_failed_attempt}
use nft_okboy_fleet.Db.Keys.{UniqueKeys, write-UniqueKeys}
use nft_okboy_fleet.Db.Statements.{
  Statement, exec, run, on_users, on_groups, on_nodes, logs_audit, records_failed_attempt,
}
use nft_okboy_fleet.Db.Statements.OnUsers.{exec_user-UniqueKeys}
use nft_okboy_fleet.Db.Statements.OnGroups.{exec_group-UniqueKeys}
use nft_okboy_fleet.Db.Statements.OnNodes.{exec_node-UniqueKeys}

exec-UniqueKeys : (q : Statement) (d : Db) → UniqueKeys d → UniqueKeys (exec q d)
unfolding exec log_audit record_failed_attempt
exec-UniqueKeys (on_users q) d v = exec_user-UniqueKeys q d v
exec-UniqueKeys (on_groups q) d v = exec_group-UniqueKeys q d v
exec-UniqueKeys (on_nodes q) d v = exec_node-UniqueKeys q d v
exec-UniqueKeys (logs_audit actor action target ids detail) d v =
    write-UniqueKeys
      (λ d. record d {
        audit_log =
            d.audit_log
            ++ record {
              actor = actor;
              action = action;
              target = target;
              target_ids = ids;
              detail = detail;
            }
              ∷ [];
      })
      d (λ d' v'. v') v
exec-UniqueKeys (records_failed_attempt username ip why) d v =
    write-UniqueKeys
      (λ d. record d {
        failed_attempts =
            d.failed_attempts
            ++ record { username = username; ip = ip; reason = why; created_at = d.now } ∷ [];
      })
      d (λ d' v'. v') v

-- Whatever writing queries and runs of migrate004GroupsUnique there are, in whatever order and with
-- whatever failures: from tables with unique keys they lead to tables with unique keys. No two users
-- share a name or an id, no two groups a name or an id, nor a port and protocol once that migration
-- has made their index, which it does only over data that permits it; no two nodes a name, an id or a
-- token; and there is one membership at most for a user and a group and one target for a group and a
-- node.
pub run-UniqueKeys : (qs : List Statement) (d : Db) → UniqueKeys d → UniqueKeys (run qs d)
unfolding run
run-UniqueKeys [] d v = v
run-UniqueKeys (q ∷ qs) d v = run-UniqueKeys qs (exec q d) (exec-UniqueKeys q d v)
