-- ===== src/Lib.antt =====
-- The control plane of xds-controller: Kubernetes controllers that read Envoy resources and keep, for
-- every Envoy node, the resources it is to be served, and a server that turns them into snapshots.
--
-- The parts and the files that model them:
--   * Status: pkg/status/status.go. The flags that the controllers set and the server reads, and the
--     sequence numbers of listeners that wait for a rebuild. ReconciliationStatus keeps the fields of
--     the struct, a flag of each kind as a function of the kind; the methods that differ only in the
--     kind (SetListenersReconciled, SetRoutesReconciled, ...) are one function (set_reconciled, ...).
--     Status.Pending is about the marks, Status.Ready about readiness.
--   * Util: controllers/util/util.go. ParseCSV, NodeIDs, GetNodeID, GetNodeInfo, FindNodeAndCluster
--     and OlderRoute. Util.Csv, Util.Ids and Util.Age hold the theorems.
--   * Fcm: pkg/xds/fcm/fcm.go. CompileProto turns a filter chain match into a Matcher
--     (compile_proto); Fcm.Verdicts has Compare (compare_matchers), Fcm.Names the server names,
--     Fcm.Index the Set that finds duplicates by server name, Fcm.Compile what compiling guarantees.
--   * Api: pkg/xds/types/route/route.go, the Route object as far as the others read it.
--   * Lds: controllers/lds/listener_controller.go. listener_recast and process_routes put the chains
--     of routes on a listener, with build_chain and the chainCache (get_chain, prune). Routes are
--     addresses into a heap, since the cache is keyed by pointers. Lds.Cache and Lds.Apart hold the
--     theorems. Lds.Reconcile is Reconcile, with the nodes and routes of a listener and its mark;
--     Lds.Reconcile.Confined, Rebuild and Settling follow what the nodes serve, Marks the mark.
--   * Snapshot: pkg/xds/xds.go. all_resources gathers the resources of each node from the
--     configuration maps (Snapshot.Nodes); Snapshot.Routes has routeReferences, the pruning and the
--     loop of GenerateSnapshotsV2; Snapshot.Memo the passMemo of pkg/xds/hash.go; Snapshot.Pruning
--     the theorems about routes.
--   * Serv: pkg/serv/serv.go. isSnapToUpdate, processSnapshot and the ticker of Start;
--     Serv.Versions relates the recorded versions and the snapshots in the cache. Serv.Callbacks is
--     pkg/serv/callbacks.go with the streams and the versions that pkg/xds/xdsMetrics.go keeps;
--     Serv.Progress and Serv.Streams have the theorems. They use the node IDs of Util.
--   * Leader: pkg/leader/leader.go. Start by its ticks, and ReleaseLeadership; Leader.Election holds
--     the theorems.
--   * Sds: controllers/sds and pkg/xds/sds.go. Sds has the retry policy and the annotations of
--     controllers/sds/annotations.go, Sds.Policy the theorems about them. Of
--     controllers/sds/tlssecret_controller.go, Sds.Reconcile is Reconcile (reconcile_tls), on the
--     records of Sds.Records; Sds.Attempt is the part from GetSecret on (attempt, with fail and
--     publish for what follows), Sds.Patches the updates of the status, Sds.Secrets the placing
--     of a secret, Sds.Status what updateTLSSecretStatus writes (update_tls_status in
--     Sds.Status.Writes), Sds.Conditions the conditions. Sds.Obtain is GetSecret and makeSecret of
--     controllers/sds/sds.go, Sds.Storage StorageConfigRead and StorageConfigWrite of pkg/xds/sds.go
--     (Sds.Storage.Choice the choice of the storage), Sds.Errors the errors of pkg/xds/err/err.go and
--     Sds.Certificates the reading of certificates. The theorems: Sds.Reconcile.Backoff, Success and
--     Renewal, Sds.Status.Writes, Sds.Storage.RoundTrip and Watch, Sds.Obtain.Orders, Stored
--     and Missing.
--   * Registry: how controllers/cds/cluster_controller.go and controllers/eds/endpoint_controller.go
--     file a resource under one node. Registry.Endpoints and Registry.Clusters are the Reconcile of
--     each; Registry.Ruling says without the loops what a cluster with endpoint references is due;
--     Registry.View, Registry.Removal, Registry.Refines and Registry.Waiting hold the theorems.
--   * Objects: the status of a route, a cluster, an endpoint or a listener, which updateRouteStatus
--     and the three functions like it write by the same code; Objects.Writes holds the
--     theorems.
--   * Rds: controllers/rds/route_controller.go. RouteConflict and findConflicts, by which the route
--     controller keeps a route off a listener that an older one occupies; Rds.Placement places and
--     removes routes, Rds.Targets finds the nodes of a route, Rds.Reconcile is Reconcile with the
--     notification of listeners and the losers. Rds.Effects, Rds.Coherence, Rds.Served, Rds.Steps and
--     Rds.Install follow the routes of the nodes through Reconcile, up to Rds.Invariant and
--     Rds.Outcome; Rds.Closure, Rds.Contest and Rds.Retry follow the losers, Rds.Counter the counter;
--     Rds.Missing is about listeners that do not exist.
--   * Prelude: lists, maps, texts, equality tests and results that the others share.
--   * Examples: concrete runs, one for each theorem below.
--
-- How they interact: the controllers file resources under node IDs of Util; Snapshot expands each ID
-- into the nodes it targets, by the coding of Util; Lds and Snapshot stand on the matchers and the
-- route names; Serv passes the snapshots on when Status lets it and the counter, which Sds.Secrets,
-- Registry and Rds move, has changed; Sds.Reconcile places what Sds.Obtain returns; Rds marks the
-- listeners of Status whose chains it changes.
--
-- How the code is modelled: texts are lists of character codes, pointers that may be nil are
-- options, errors are values of Result or Option, Go maps are association lists in the order in
-- which a range loop visits them. The counter of pending listeners wraps at 2 ^ 64; that of
-- configuration changes is taken without a bound. Time is a natural number of nanoseconds,
-- durations that may be negative are signed. Every loop is over a list, so no fuel is needed. A
-- call under a lock or on an atomic is one step.
--
-- What is a parameter: the base64 and JSON coding of node IDs, the generated validation of matches
-- and the address parser, the JSON and proto conversions of a route, the decoding of HTTP connection
-- managers, the library's snapshots and snapshot cache, floating point numbers, the parsers of
-- numbers and durations, PEM, X.509 and SHA-256, the CertGetter that orders a certificate, and the
-- answers of the Kubernetes API, with what it keeps of a time in the status of a TLSSecret that the
-- next Reconcile reads (stored_time; in Sds.Status.Writes the times are those written). Semantic.DeepEqual is taken as equality, an absent slice being an
-- empty one. Reconcile of a TLSSecret takes what GetSecret returns as an input, and records its calls;
-- Sds.Obtain says what that input is.
--
-- Not modelled: the generated Envoy types and their generators, start-up, logging, metrics and
-- mocks; the digest that versions a snapshot, the ACME client and the self-signed certificates, the
-- retry of a conflicting status write, the conversion of HTTP connection managers, and the audit tool.
pub mod Prelude
pub mod Status
pub mod Util
pub mod Fcm
pub mod Api
pub mod Lds
pub mod Snapshot
pub mod Serv
pub mod Leader
pub mod Sds
pub mod Registry
pub mod Objects
pub mod Rds
pub mod Examples
