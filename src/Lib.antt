-- ===== src/Lib.antt =====
-- A model of validator-health-collector, the Prometheus collector for the validators, the
-- governance and the redelegations of a Cosmos chain.
--
-- The collector runs in cycles. It discovers REST and RPC endpoints (endpoints/), reads the chain
-- through clients that rotate among them (collector/rotator.go), finds the proposals that are open or
-- were closed recently (collector/proposal_scan.go), analyses each of them
-- (collector/governance.go, collector/proposal_veto.go), and publishes how concentrated the stake is
-- and which validators are at risk (`CollectSnapshot` of collector/collector.go). On schedules of
-- their own it keeps a rolling window of redelegations (collector/redelegation.go,
-- collector/redelegation_query.go) and follows the delegations of configured accounts
-- (collector/managed_delegation.go).
--
-- Which file models which part:
-- - Base and its children: equality, lists, maps as association lists, errors as values, sorting,
--   and Float64, the interface of float64, which every theorem on shares and sums is about.
-- - Go and its children: what the source uses of strings, strconv and time. A time is its number of
--   nanoseconds since two days before the year 0. It has no bound, and none before that: the
--   subtraction of a duration stops there.
-- - Client: `rotator` (Client/Rotator), `fetchJSON` and `fetchJSONUnless` (Client/Fetch). Each method
--   of the rotator takes a lock for its whole body, so each is one step.
-- - Governance: Proposal, Scan and Walk are collector/proposal_scan.go; Memory is
--   `recordProposalScan` of collector/collector.go; Vote and Analysis are collector/governance.go;
--   Veto is collector/proposal_veto.go; Gauges and Publish are `analyzeProposals` of
--   collector/collector.go.
--   Adding, Listing, Aging, Walking, Answering, Newest, Hidden, Sums, Capability, Attribution, Independence and
--   the children of Publish hold proofs, but for Publish/Writes: the single calls of `Set` and `Reset`,
--   between which a gauge may be read.
-- - Address: cosmosaddr/cosmosaddr.go, over a codec that stands for the packages it calls.
-- - Validators: the consensus key of a validator, the slashing parameters of collector/queries.go
--   and `blocksUntilJail` of collector/collector.go.
-- - Redelegation: Event and Search are collector/redelegation_query.go; Threshold, Scanner
--   and Publish are collector/redelegation.go. Found, Window, Incremental and Crossing hold proofs.
-- - Endpoints: Registry, Probe and Resolver are the files of these names under endpoints/; Requests
--   is `FetchChain` and `getJSON` over the answer to the request. Choice holds proofs.
-- - Config: config/config.go, and entity/map.go in Config/Entity. Config/Accounts holds proofs.
-- - Queries: collector/queries.go. Queries has the loop over pages and the parsers; Delegations,
--   Consensus, Params and Votes have the queries; Consensus/Members holds proofs.
-- - Managed: collector/managed_delegation.go. Positions and Collect are `collect`, Publish is
--   `publish`, Scan is `Scan`; Writes is `publish` as its calls on the gauges, and Registry is the
--   lock `managedMu`, with a scanner and a scrape that go step by step. Positions/Unlocks, Scraping,
--   Labelled and the children of Collect hold proofs.
-- - Collector: collector/collector.go. Resolving is `resolveEndpoints`; Schedule is `nextAlignedRun`;
--   State, Stages and Snapshot are `CollectSnapshot`, a function from the state of the collector and
--   the answers of one cycle to the state after it and its error; Concentration and Signing are
--   its sections on entities and on missed blocks. Run is the loop `Run`, as a relation between the
--   state before and after its first cycles; New is the state that the process starts in; Loops
--   is a resolve pass as its writes, beside the loops of the two scanners and their channels; Scraped
--   is a cycle as its writes; Metrics is `Metrics` with `NewMetrics` (Metrics/Options), `Describe` and `Collect`. Their children hold proofs.
-- - Startup: main.go, up to the start of the loops.
-- - Tests: the theorems at concrete inputs.
--
-- What the program gets from outside is an argument: the answer to each request, the clock, decoded
-- files and registry entries, and the codec of addresses. A range over a map takes the order of
-- insertion, and a sort keeps the order of equal elements: in both cases one of the orders that Go
-- may choose. IDs and page numbers are not bounded.
--
-- Fuel: the loops over the pages of a list and the search upward for the newest proposal have no
-- bound in the source and take fuel. One unit is enough for each page, and for each ID up to
-- ten past the newest. The walk over single proposals, the search for redelegations and the retries
-- have their bounds in the source.
--
-- Gauges: a gauge with labels is a map from the labels to its value, which `Reset` empties; for the
-- redelegations and the managed delegations, a list of rows.
--
-- Exactness: float64 has no laws here, but for the two theorems on the concentration of the stake:
-- they suppose what IEEE 754 says of whole numbers up to 2 ^ 53 (Collector/Concentration/Exact).
-- The tokens of a chain, in its smallest unit, are such numbers.
--
-- Not modelled: the sending of HTTP requests and the decoding of JSON and YAML, logs, the help
-- texts of the metrics, the scheduling of goroutines and tickers, and the
-- HTTP server. During one cycle the clock stands still. In a cycle and in a scan the answers of
-- the queries are arguments; which endpoint gives them is the subject of Client.
-- A scrape of the gauges outside the lock reads one after another while a cycle writes: what is said
-- of the states between two writes is said of each single state, and not of such a scrape.
pub mod Base
pub mod Go
pub mod Client
pub mod Governance
pub mod Address
pub mod Validators
pub mod Endpoints
pub mod Config
pub mod Queries
pub mod Managed
pub mod Redelegation
pub mod Collector
pub mod Startup
pub mod Tests
