-- ===== src/Lib.antt =====
-- knxvault: a model of the authorization, the secrets, the audit log, the repositories with their
-- backups and their replication, and the renewal decisions of KNXVault.
--
-- KNXVault is a secrets server. A request carries the names of policies; the RBAC engine expands
-- their includes and decides. Failed logins are counted by the lockout tracker. Secrets are versioned
-- by the KV engine, which encrypts them and stores them in a repository; leases of dynamic secrets
-- have lifetimes and quotas from their role. What happens is written to an audit log whose entries
-- chain by hashes. All records stand in in-memory repositories; a Raft state machine holds one of each
-- kind, applies the committed commands to them, and is replaced by a snapshot when a replica recovers;
-- clients reach the repositories through commands and queries. The operator decides when a certificate is issued again.
--
-- The modules and the code they are about:
--   Prelude, Errors   what the others share: texts as lists of bytes, Go maps as association lists
--                     (lookup, insert, delete), membership; the errors of
--                     internal/domain/common/errors.go.
--   Auth.Glob         matchGlob (internal/auth/glob.go) and globMatch (internal/domain/auth/policy.go).
--                     Relation says which texts fit a pattern, Decides and Literal relate the two
--                     matchers to it.
--   Auth.Policy       Policy.Validate, MatchResource, MatchAction, MatchResourceLegacy.
--   Auth.Conditions   ConditionsMatch and PolicyMatches (internal/auth/evaluator.go). The packages net
--                     and time are the record Env.
--   Auth.Rbac         NewRBAC, UpsertPolicy, DeletePolicy, LoadPolicies, ReloadFromPersisted,
--                     ResolvePolicyNames, AuthorizeDetailed, Authorize (internal/auth/rbac.go, authz.go,
--                     capabilities.go). The state is the map of policies.
--   Auth.Lockout      LockoutTracker (internal/auth/lockout.go), as functions of its state and the time.
--   Auth.Roles        the roles (internal/domain/auth/policy.go), their service account bindings
--                     (internal/auth/role_binding.go) and their policies (internal/auth/role_resolver.go).
--                     The repository of roles is a function.
--   Secrets.Store     SecretVersion (internal/domain/secrets/version.go) and the repository
--                     (internal/repository/memory/secret_repository.go): a call takes the map and
--                     returns the map after it with its result.
--   Secrets.Paths     rejectReservedKVPath (internal/engine/secrets/kvv2.go).
--   Secrets.Ttl       ParseTTL (internal/utils/duration.go), with the wrap-around of its product.
--   Secrets.Engine    KVV2Engine (internal/engine/secrets/kvv2.go): Put, Get, GetVersion,
--                     DestroyVersion, Delete, and in Engine.Listing ListPaths, ListVersions and
--                     GetMetadata. JSON and encryption are the record KvEnv.
--   Secrets.Tuning    the lifetimes of a role (internal/domain/secrets/lease_tuning.go).
--   Secrets.Leases    Lease, its repository and the quota of a role (internal/domain/secrets/lease.go,
--                     internal/repository/memory/lease_repository.go, internal/engine/secrets/leaseutil).
--   Secrets.Sql       the allow list of the statements of managed database roles
--                     (internal/domain/secrets/sql_allow.go).
--   Secrets.DatabaseConfig
--                     what the configuration of a database role may hold
--                     (internal/domain/secrets/database_role_config.go). url.Parse is a parameter.
--   Audit.Redact      SanitizeDetails and RejectSensitiveDetails (internal/audit/redact.go).
--   Audit.AuthFields  applyAuthFields (internal/audit/service.go).
--   Audit.Chain       Record and the hashes (internal/audit/service.go) over the repository
--                     (internal/repository/memory/audit_repository.go). SHA-256, HMAC and JSON are the
--                     record AuditEnv.
--   Audit.Verify      Verify, Export and ValidateChain (internal/audit/service.go, chain.go).
--   Repos             the other repositories (internal/repository/memory) with their records and the
--                     checks of these (internal/domain/pki, internal/domain/auth,
--                     internal/domain/secrets): Cas, PkiRoles, IssuedCerts, Revocations, Policies,
--                     Roles, DatabaseRoles, SshRoles, RotationPolicies, Identities, Tokens. Keyed, Kept
--                     and Sorted hold what their proofs share: the invariant of a map of checked
--                     records under their keys, and the order of a sorted list.
--   Backup            snapshots (internal/backup): the records and their conversions, Export,
--                     ValidateSnapshot, ClearRepos and Restore, over all repositories at once.
--   Raft.Store        the store of internal/raft/store.go, its snapshots and their import.
--   Raft.Ops, Values  the names of the commands and what travels as JSON (internal/raft/commands.go).
--                     A type of Go is a Kind, and encoding/json is the record Json, which reads and
--                     writes the values of each kind.
--   Raft.PkiHandlers, SecretHandlers, AccessHandlers
--                     the handlers (internal/raft/handlers.go). What is the same on every replica is the
--                     record Library; its clock and what uuid.New gives it are the record Local.
--   Raft.Machine      Handle, Lookup and Update (internal/raft/store.go, statemachine.go), and replay,
--                     which applies a log of entries in turn.
--   Raft.Client       Propose, Read and DecodeResult (internal/raft/client.go, store.go). The NodeHost of
--                     the consensus library is a record of its two calls.
--   Raft.SecretsAdapters, AccessAdapters
--                     the repositories over the client (internal/repository/dragonboat/repo.go).
--   Operator.Renew    ValidateAndDecide and what it calls (internal/operator/certlogic/decide.go,
--                     internal/operator/renew/schedule.go).
--
-- Conventions. A Go map is a list of entries in some order; what depends on the order of a range is
-- for whatever order the list has. Times and durations are numbers of nanoseconds, and a call gets the
-- time at which it runs. White space is that of ASCII, and ToLower acts on ASCII letters. A lock held
-- for a whole call is the call as one step. Record of the audit log holds no lock between the read of
-- the last hash and the append; it stands as one step all the same, so the results on it are about
-- calls that do not overlap. Version numbers and the numbers of entries grow without a bound, where
-- the code adds to an int. Identifiers of type UUID are texts in the repositories, as
-- they are printed. An error that fmt.Errorf makes has the code internal; one that wraps another
-- stands as the error inside. A repository hands out copies, so records are values.
--
-- Fuel. ResolvePolicyNames recurses into includes, which may be cyclic. The model bounds how deep the
-- calls nest by one more than the number of loaded policies: each nested call stands under a name that
-- is loaded and was not seen before, so the bound is never what ends the recursion.
--
-- Not modelled: the HTTP interface, the command lines and the operator's controllers, which call what
-- is modelled; the PKI, database, SSH, transit and cubbyhole engines; the token service and login
-- methods; tenants; the consensus library and the start, membership and leadership of its nodes; the
-- sealing of archives and encryption, which is a parameter; forwarding of audit entries;
-- RBAC.Capabilities.
pub mod Prelude
pub mod Errors
pub mod Auth
pub mod Secrets
pub mod Audit
pub mod Operator
pub mod Repos
pub mod Backup
pub mod Raft
