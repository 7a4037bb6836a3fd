-- ===== src/Lib.antt =====
-- Himmelblau, the Entra Id and OIDC client for Linux: the decisions of its daemon about who is
-- known, who is let in and who is authenticated.
--
-- The daemon answers NSS and PAM clients over a socket. Each request is a method of the resolver
-- (src/common/src/resolver.rs), which keeps a SQLite cache (src/common/src/db.rs), an exclusion set of
-- local users and groups and a negative cache, and asks an identity provider behind the trait of
-- src/common/src/idprovider/interface.rs. A new Hello PIN is checked by
-- src/common/src/hello_pin_complexity.rs.
--
-- - Common: shared names; Boolean tests, lists, texts and Rust's Result.
-- - Pin: is_simple_pin and meets_intune_pin_policy. A PIN is the list of its characters.
-- - Proto: the messages of src/common/src/unix_proto.rs.
-- - Idp: the types of interface.rs, and the provider as a record of operations.
-- - Db: the tables and statements of db.rs; Db.Accounts has those on account_t and an account's
--   memberships, Db.Groups those on group_t, a group's members, and all tables.
-- - Resolver: the resolver's state and how its methods run. Resolver.Cache has the tokens of the
--   cache, expiry and exclusion; Resolver.Refresh the answers from it; Resolver.Nss the lookups of
--   NSS and the access decision pam_account_allowed; Resolver.Session, Resolver.Init and
--   Resolver.Step an authentication, begun and stepped; Resolver.Unseal pam_try_unseal, and
--   Resolver.Tokens access tokens, tickets, cookies and a new PIN.
-- - Hello: what both identity providers share, the macros and caches of
--   src/common/src/idprovider/common.rs over the key store of db.rs. Hello.Keys has the tags of an
--   account's keys, Hello.Counter the count of bad PINs and the deletion of the keys, Hello.Refresh the
--   cache of tokens, Hello.Online the check of the network, break glass and access tokens, Hello.Load
--   what is unsealed, Hello.Offline the authentication by PIN and TOTP code, Hello.Change a new PIN.
-- - Oidc: the OpenID Connect provider, src/common/src/idprovider/openidconnect.rs, as a client of the
--   orchestrator: Oidc.Start and Oidc.Flow begin and step a sign-in with a second device or a browser,
--   Oidc.Inputs turns required inputs into requests and answers, Oidc.Validate is token_validate,
--   Oidc.Codec the decoder of responses.
-- - Orchestrator: src/orchestrator/src. Orchestrator.Pool is container_pool.rs, the critical sections of
--   its tasks as actions that interleave; Orchestrator.Session and its Manager are session.rs;
--   Orchestrator.Command the validation of types.rs; Orchestrator.Communication the dispatch of
--   communication.rs to the manager, which the flow engine's operations complete.
-- - Names: src/common/src/user_map.rs, mapping.rs, idmap_cache.rs and nss_cache.rs.
-- - Pam: the client's side, src/common/src/auth.rs: the handlers of the daemon's responses, the choice
--   of a PIN or a password, the FIDO handler, the QR code, and the loop of authenticate.
--
-- How the code is modelled. A method of the resolver is an action: a function of the store (the
-- tables, the database's mutex, the exclusion set, the world outside) to an outcome and a store. The
-- outcome is done, failed (the method's Err), or blocked: the task waits for a mutex that it holds
-- itself. The tables are lists of rows; a statement does to them what SQLite documents for it, and
-- only COMMIT may fail, when the tables stay as they were before the transaction. Foreign keys are
-- not enforced, since nothing turns them on. An expiry is stored as a signed 64 bit number, and a
-- larger one is refused. Times are nanoseconds since the epoch, and the clock is never before it. A
-- Uuid is its hyphenated text. A column's token is none where serde_json could not read it. Loops
-- over lists need no fuel. The client's loop, and its loop until a PIN or a password is accepted and
-- confirmed, go on for as long as the daemon and the user make them: there fuel bounds the requests
-- and the rounds, and `waiting` or none says that it was spent.
--
-- The world outside is a parameter W: the provider's state, its key store, the TPM, the clock, the
-- negative cache's LRU and the file system. The operations on it are the fields of IdProvider and
-- System; nothing is assumed of them. X is the type of the values that come from the libhimmelblau and
-- HSM crates. The client's outside is its own W, with the operations of Front: the daemon's socket,
-- the MessagePrinter, the clock, Bluetooth, the FIDO devices, the policy file, and the answers of the
-- qrcodegen, regex and urlencoding crates. The theorems hold for all of these.
--
-- A provider's method is an action on its state, the key store and the world; in Hello times are seconds.
-- The tasks of the pool are lists of actions, one for each section that a task runs without giving up
-- the lock or waiting; a step runs the first action of any task, so that reachability has every
-- interleaving. Of tokio's Notify only that a permit that was given can be taken is assumed. In Oidc D is
-- a device authorization and T a token; what serde_json and the crates for OpenID Connect do, and the
-- making of a user from the claims of a token, are fields of Client. Loops there need no fuel.
--
-- Not modelled: the mutexes of the HSM, the exclusion set and the negative cache, and the order in
-- which several tasks take them; the rollback of what a provider wrote to its key store in a
-- transaction that is dropped; the receiver shutdown_rx; logging. Of the resolver, the broker's state is
-- not modelled. Of the providers, the online steps of
-- src/common/src/idprovider/himmelblau.rs and the steps of openidconnect.rs for passwords and PINs are
-- not, which are mostly calls of other crates; of the orchestrator not flow.rs, its providers and
-- podman.rs; nor are the input and output of the daemons, tools and modules.
pub mod Common
pub mod Pin
pub mod Proto
pub mod Idp
pub mod Db
pub mod Resolver
pub mod Pam
pub mod Hello
pub mod Oidc
pub mod Orchestrator
pub mod Names
