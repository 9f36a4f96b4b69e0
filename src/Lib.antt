-- ===== src/Lib.antt =====
-- Verification library of the OpenLinker plugin's Browser Runtime (Go, packages/browser-runtime) and
-- of the journal and the leases of its callers (packages/agent-adapters).
--
-- The Runtime serves one browser to an Agent over a Unix socket. A client sends an Identity, a
-- request id and an Action; the server checks them, admits the request, lets a backend execute the
-- action, and answers an Observation or a Failure, which the client checks again. The parts that are
-- modelled, with the files that model them:
--
--   Protocol/Types, Identifiers, Failure: the types of browserprotocol/types.go, the identifier
--     checks of identifiers.go, and NewFailure.
--   Protocol/Failure/Validate: ValidateFailure of browserprotocol/validation.go. The canonical form
--     of one origin (canonicalMutationOrigin, on net/url and net/netip) and the SHA-256 digest of a
--     list are parameters.
--   Protocol/Origins: CanonicalMutationOrigins and ValidateMutationOrigins of origins.go.
--   Protocol/Action: Action.ValidateForPolicy of action.go; the destination check of a navigation is
--     a parameter. Protocol/Action/Policy and Bounds hold its properties.
--   Protocol/Backend: BackendSelectionEvidence.Validate of validation.go.
--   Protocol/Request: the wire envelope of types.go and Request.Validate and Identity.Validate of
--     validation.go. Protocol/Observed: the validation of observations and of the evidence about the
--     environment. Images and the time zone database are parameters.
--   Network/Hosts: LooksLikeIPLiteral of netpolicy/host.go and IsValidPublicHostname of
--     egressgateway/gateway.go. Network/Addresses: IsBlockedIP with the prefixes of
--     netpolicy/prefixes.go. Network/Destination: validateNavigateURL of browserprotocol/destination.go.
--   Network/Gateway: ServeHTTP of egressgateway/gateway.go with all it calls up to the resolver, the
--     dialer and the transport, which are parameters; the result lists the addresses it dials, which
--     Dials and Public bound.
--     Network/Resolver: DoHResolver of egressgateway/doh.go, the writes of its cache one step each.
--   Protocol/Viewer and Health: browserprotocol/viewer.go and health.go.
--   Client: New and Execute of browserclient/client.go; Lease is the lease it holds. Builds is about
--     the requests it sends, Served about the client over the server.
--   Runtime/Scope: attachmentRequestScope of browserruntime/connection.go.
--   Runtime/Server: the state of Server (browserruntime/server.go) that seenMu guards.
--   Runtime/Admission: every function of connection.go that changes that state, one step each.
--     Events composes them into histories; the other children prove what every history keeps.
--   Runtime/Selector: BackendSelector of browserruntime/backend_selector.go. Selector/Backends is the
--     interface BrowserBackend over a world that the methods change; Start and Execute are the
--     operations; Moves lists what a call can do, Guarantees and Guard what follows, New the
--     constructor.
--   Protocol/OpsObserver: requests, observations and responses of browserprotocol/ops_observer.go.
--     The parser of URLs (net/url) is a parameter.
--   Runtime/Observer: OpsObserverLeaseManager of browserruntime/ops_observer_lease.go, the lease that
--     all Ops observer connections share. Observer/Connection is handleConnection of
--     ops_observer.go, as turns of connections that interleave; Holder, Exclusive, Frames, Replays
--     and Probe prove what the turns keep and show.
--   Runtime/Lease: StaticLease of browserruntime/lease.go.
--   Runtime/Connection: handleConnection of connection.go from the decoded request on: the lease, the
--     admission, the engine and the answer, with the effects it has outside the server in order.
--     Endings and Histories show the admission state it leaves, Permits, Replies and Executes what it
--     calls and answers, and Writes is the writing of the response.
--   Runtime/Viewer: handleViewerConnection and handleHealthConnection of connection.go; Permits is
--     what a Viewer connection calls and answers.
--   Runtime/Revocations: FileLease of lease.go and revocation.go. Lists, Distinct, Reads and Index are about the index, Steps and
--     Revokes about Revoke.
--   Runtime/ProfileState: profile_origin_budget.go (Budgets) and page_continuation.go (Pages) of
--     browserruntime; Files is how both look at a file.
--   Adapters/Journal: the mutation journal of
--     packages/agent-adapters/agentexec/browser_mutation_journal.go. The length of an entry's JSON
--     and the printed time are parameters.
--   Adapters/RunLease: browserRunLease of agentexec/browser_run.go, with the files it writes. Epochs
--     is about its control epoch.
--   Adapters/HumanControl: browserHumanControl of agentexec/browser_human_control.go, which passes
--     control to a human and back. Channels is about the goroutines that wait, Turns about commands.
--   Base: native numbers, Go's int and string, lists and Boolean tests.
--   Tests: concrete inputs for the theorems that have hypotheses.
--
-- How the code is read. A pointer is an Option and a nil slice none. An int is a signed integer; the
-- negation in abs, the one operation that can leave its range, wraps, as the epochs of a lease do.
-- Counters that their limits
-- keep small are natural numbers. Strings come from decoded JSON, so they are valid UTF-8; `len`
-- counts bytes. Maps used as sets are lists of keys. A mutex makes each operation one step, and an
-- interleaving is a sequence of steps. The loops are structural, with one
-- exception: the loop that writes a response depends on what its writer claims, and runs on as much
-- fuel as the line has bytes, which Writes proves enough. Decimal printing is given more digits than
-- the number has. Instants are nanoseconds since a zero of time.
--
-- Not modelled: decoding and sockets, the browser engine behind its interface (TypeScript) and the
-- processes and files around it, the Profile store, the MCP server, the rest of the provider adapters and the command-line programs.
pub mod Base
pub mod Protocol
pub mod Network
pub mod Client
pub mod Runtime
pub mod Adapters
mod Tests
