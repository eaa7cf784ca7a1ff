-- ===== src/Lib.antt =====
-- Record Hub keeps records of many source systems readable in one place, and lets workflows act on
-- them. Its server (server/internal) is a set of modules over Mongo and NATS; this library models
-- the modules that decide: who may do what, which command runs, what a connector may become, which
-- changes a client sees.
--
-- Base            shared names: Go strings as lists of bytes, int64 with its wrap-around, instants,
--                 results `(A, error)`, maps as association lists, strings.TrimSpace, decimals.
-- Audit           modules/audit/model.go: the audit entry.
-- Identity        modules/identity: Principal (principal.go), Authorization (Authorizer.Authorize,
--                 roleAllows) and Rotation (PrincipalRotationService). Rotation/Traces runs any
--                 sequence of its methods, Final, Audit and Handover are about such runs.
-- Binding         modules/binding: Reference (ParseRecordRef), Policy
--                 (StaticMachinePolicyAuthorizer) and Snapshot (Service.CreateSnapshot, with
--                 GetSnapshot in Snapshot/Get).
-- Commands        modules/commands. Model has model.go. Store is the interface of service.go with
--                 the contract that the service relies on, Memory is MemoryStore, and
--                 Memory/Contract shows that it keeps the contract. Policies is
--                 StaticPolicyRegistry. Service is Submit (Service/Submit) and ApplyResult
--                 (Service/Results); History is the relation of the changes that they make to a
--                 store. Inbox is MemoryInboxStore with InboxService.Process.
-- Connector       modules/connector: Names (patterns, ParseVersion), Manifest, Registry, Onboarding.
--                 Onboarding/Calls runs any sequence of its calls and lists the deeds of each: which
--                 identity took which step on which record.
-- Records         modules/records: Model (model.go) and Feed (feed.go: RecordFeed).
-- Database        what the modules use of a collection of the Mongo driver: the operations with
--                 their documented effects, which the models of the projection take as parameters;
--                 Maps is an instance.
-- Projection      modules/projection. Inbox is inbox.go. Checkpoint and Store are store.go: Apply as
--                 one transaction over the collections, then the publication to the feed; Effect
--                 says what each outcome changes, Runs are sequences of Apply and of the inbox's
--                 calls. ReadPointer is read_pointer.go. Retry and Runner are retry.go and, of
--                 nats.go, the configuration and what becomes of a failed message.
-- Schema          modules/schema/compatibility.go: the comparison of two schemas. Accepts is what a
--                 schema accepts, described apart from the code.
-- Web             web/session.go: SessionManager with its signed cookies and pending logins. UsedOnce and
--                 Pending run any sequence of logins. Csrf is CSRFProtection and Login the
--                 callback of web/auth.go.
-- Observability   observability/ratelimit.go: RateLimiter.
--
-- The parts meet where the code calls across: Submit parses references by Binding and asks a policy
-- authorizer, onboarding and the authorizer share roles and memberships, the projection store works on
-- the inbox's events and publishes to the records feed, all write audit entries.
--
-- Each operation is one function from the state before it to its answer and the state after it; the
-- services of rotation, onboarding, the registry and the feed hold their mutex for just that step.
-- What an operation meets outside comes as an argument: the clock's readings, generated identifiers,
-- whether the audit writer or the publisher succeeds, SHA-256, JSON, the Unicode tables of
-- strings.ToLower, the owner of a command. Calls of several clients are sequences of such steps.
-- Submit, ApplyResult and Process take the store's lock once per call of it and are one step here:
-- what another client does in between is outside of the model, though the branch that answers to it
-- (a receipt that Create finds taken) is in the definitions.
--
-- Bounds. int64 and uint64 counters wrap around; the feed's theorems ask that its counter does not.
-- Fuel is used in Base/Decimal, where twenty digits hold every 64-bit number, and for the deliveries
-- of a message in Runner/Ends, where MaxDeliver of them are enough. Instants are unbounded.
--
-- Not modelled: HTTP, NATS and Mongo adapters, nil receivers and dependencies, sorted listings,
-- MongoStore and MongoInboxStore of the commands; of the projection the catalog, associations,
-- summaries, rebuilds and the loop of the runner; of the schema module all but compatibility; of the
-- records module the service with views, tags and exports; configuration, the exchange with the OIDC
-- provider and tools. WithTransaction is one run of its callback: that the driver may run it again
-- after a transient error is left out.
pub mod Base
pub mod Identity
pub mod Audit
pub mod Binding
pub mod Commands
pub mod Connector
pub mod Records
pub mod Database
pub mod Projection
pub mod Schema
pub mod Web
pub mod Observability
