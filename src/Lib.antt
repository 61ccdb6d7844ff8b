-- ===== src/Lib.antt =====
-- nft-okboy: a port-knocking allowlist for a host's firewall, and a hub with agents for a fleet.
--
-- A user's signed request (a knock) records the user's address and opens the ports of the user's
-- groups to it. Handlers write the database first or the firewall first, under one lock; Maintain and
-- the agents on other hosts align each firewall with what the database desires.
--
-- The parts and their files:
--   Firewall (internal/firewall/backend.go): rules, errors, the interface FirewallBackend. Under it
--     Names (ValidName), Comment (commentFor, splitComment, groupFromComment), ReconcileAll
--     (internal/firewall/reconcile.go), Manager and Stale (internal/firewall/manager.go), Mock
--     (internal/firewall/mock.go), None (internal/firewall/none.go), and Lawful, the laws of the
--     interface that the policies rely on, with Mock.Lawful and Nft.Lawful for two backends. Nft
--     is internal/firewall/nft.go: the backend over the program nft, a parameter whose JSON is
--     data, with Nft.Kernel.Documented for what the manual of nft says of it and Nft.Runs for when
--     it does what it is asked; Guard is its guardLayout, sameGuard and guardAtTail, and
--     Nft.Ruling reads guard rules as verdicts on packets. Ufw is internal/firewall/ufw.go: the
--     parser of listings and, in Ufw.Backend, the operations, over the program ufw and the
--     host-wide lock; the submatches of its patterns are parameters (UfwLibrary).
--   Agent (internal/agent/agent.go): the filters on a hub's answer, the guard, a cycle, the loop;
--     Agent.OverNft runs a cycle on the nftables backend.
--   Db (internal/db): the tables as lists of rows, each query as a function of the same name on them;
--     Db.Statements are the statements that change a table, one after another.
--   Auth (internal/auth/auth.go) and Auth.Totp (internal/auth/totp.go), with RFC 4226 and RFC 6238 as
--     Auth.Totp.Window reads them.
--   Server (internal/server): Server itself has middleware.go's addresses, Handler the steps that may
--     answer early, Gate the throttle in front of every route, Knock, Toggle and Status the handlers of
--     knock.go, Totp totp.go, Maintain maintain.go, Node node.go, and Admin, Admin.Groups and
--     Admin.Lists admin.go.
--   Prelude: lists and texts over native numbers, tests, Go's integers.
--
-- A function of the source has the definition of the same name in snake case; the rounds of a loop and
-- the rest of a function after an early return are definitions of their own (add_step, knock_user).
-- State is passed explicitly; a handler that holds fwMu or totpMu is one step. Loops are structural
-- recursion over the list that the source ranges over, so no fuel is used anywhere.
--
-- Ports and identifiers are unbounded integers, on which the source does no arithmetic; the difference
-- of two Unix times, where int64 can overflow, is reduced to 64 bits (wrap64). Strings are lists of
-- bytes. A Go map that only serves as a set is a list of its keys. A failure of SQLite is drawn from a
-- list of faults, one for each query.
--
-- Not modelled: the bodies of other packages (HMAC, SHA-1, base32, net.ParseIP, net.SplitHostPort and
-- the like are parameters, gathered in Server.Handler.Library); what the programs nft and ufw do
-- beyond the parameters above; Conflicts and describeGuard, which only report; HTTP, JSON and YAML;
-- reading the configuration; schema migrations but migrate004GroupsUnique, and backups; the columns
-- created_at; the command line (internal/cli) and the web client; log lines.
pub mod Prelude
pub mod Firewall
pub mod Db
pub mod Auth
pub mod Agent
pub mod Server
