-- ===== src/Lib.antt =====
-- roksbnkctl installs BNK on a Red Hat OpenShift cluster on IBM Cloud (ROKS) and takes it down again. This
-- library models the parts of it that decide something, and proves what those decisions promise.
--
-- The parts, and which file models which:
--
-- - Redact (internal/exec/redact.go): the writer that hides secrets in the output of the tools that the
--   program runs. NewRedactor is `new_redactor`, with the secrets and their table in the record Index;
--   Write, Close and scan are `write`, `close` and `scan`. Redact/Encoding has base64Variants and
--   alignedMiddle. The underlying writer is a parameter.
-- - Orphans (internal/ibm/orphans.go, internal/ibm/transit_gateway.go): the cleanup of resources that
--   terraform's state has lost. FindOrphans is `find_orphans` in Orphans/Inventory, over the answers of
--   the listing calls; markProtected, SortOrphans (sort.SliceStable is an insertion sort) and
--   dedupeNonEmpty stand in Orphans; Orphans/Scope and Orphans/Found are about what is found;
--   Orphans/Connections sorts the connections of a transit gateway; Orphans/Gateway has DeleteOrphan and
--   deleteTransitGateway, over a record Cloud of the API, the clock and the context, with every DELETE
--   recorded. Its two waiting loops run on fuel, a round for each unit; a wait ends when five minutes
--   have passed, and a round takes five seconds, so 62 rounds are enough for each.
-- - Guard (bnkversion.go, cluster_outputs.go, namespace_topology.go, line_change.go, manifest_bump.go and
--   support_matrix.go in internal/config, and internal/orchestration/create_time_guard.go): what `bnk up` checks
--   before it plans. Guard has the release line, the network mode and the namespaces, Guard/Applied the
--   comparison with the variables applied last, Guard/Settings guardCreateTimeSettings and Guard/Support
--   guardSupportedCombination. The functions keep their names, and an error is a value that holds what its
--   message prints.
-- - Lifecycle (internal/orchestration/lifecycle.go, Presence of internal/config/tfstate.go): RunUp and
--   RunDown over phases that are opaque: a record Inputs says how each ends. A run yields the log of its
--   events; a schedule interleaves the two phases that run at the same time. The reading and checking that
--   the phases do themselves is behind that record.
-- - Naming (internal/naming/naming.go): the names derived from a workspace's prefix.
-- - Credential (internal/cred/resolver.go): where the API key comes from, over a record World of the
--   environment, the keychain, the config, the decoder of base64 and the terminal.
-- - Prefixes (internal/ibm/vpc_prefix_overlap.go): the address prefixes of a new cluster VPC and their conflicts with
--   those on a transit gateway. IntendedPrefixes, nthSubnet, cidrsOverlap and FindPrefixConflicts keep their names;
--   an address is a number, and of net.ParseCIDR the IPv4 side is written out, while the reader of IPv6 addresses is a
--   parameter (an IPv4 address written as IPv6 counts as IPv6). Prefixes/Bits, Prefixes/Blocks and Prefixes/Networks
--   are about masks, Prefixes/RoundTrip, Prefixes/Zones and Prefixes/Intended about the zones' prefixes.
-- - Snapshot (internal/config/applied_tfvars.go, internal/orchestration/applied_replay.go): the variables that an apply
--   used. Snapshot has readTFVarsAssignments with its expressions and blocks, as a recursion on the lines that
--   counts the lines a block has taken, Snapshot/Writing the texts of the snapshot and the replay file, and
--   Snapshot/Store the system calls of WriteAppliedTFVars. A map is the list of its entries in the order of their
--   keys; a record Disk has the files, the state
--   directories and what a file holds once it was written to.
-- - Retry (internal/orchestration/lifecycle.go): applyWithRetry and destroyWithRetry; the attempt, the wait and the
--   state they change are parameters, and the loop runs on the attempts that are left.
-- - Drain (internal/orchestration/teardown_cr_sweep.go): the deletion of one namespace's custom resources before a
--   teardown. Drain has deleteAllIn and the split into leaves and CNEInstances, Drain/Phases the loop of drainPhase
--   and drainBNKCustomResources, over a record Cluster of the API, the clock and the context, with a log of what is
--   asked and counted. The loop runs on fuel, a pass for each unit; a pass that does not end the loop is followed by a
--   wait of at least a unit of time, so that one round more than the timeout has units is enough. Drain/Selection has
--   selectBNKResources and the sweep over the namespaces; sort.Slice is an insertion sort.
-- - Matrix (internal/test/matrix.go): the grid of throughput runs. Validate and Expand keep their names, and an error is
--   a value that names the cell by its index; path.Match and the decimals of a port are parameters. Matrix/Resolved says
--   what a cell needs in order to run. An undefined endpoint is the zero value, as in a Go map.
-- - Prelude: shared names, Boolean tests, lists, and Go's strings as lists of code points, signed numbers.
--
-- The lifecycle calls the guards in its planning phases, and the credential's key is among the secrets
-- of the redactor; each part is modelled on its own.
--
-- Not modelled: the command line (internal/cli), the clients of IBM Cloud, Kubernetes, object storage and
-- registries and the wrappers of terraform, which are mostly input and output; the text of messages; the
-- body of each phase; in internal/config, reading and writing files.
pub mod Prelude
pub mod Redact
pub mod Orphans
pub mod Guard
pub mod Lifecycle
pub mod Naming
pub mod Credential
pub mod Prefixes
pub mod Snapshot
pub mod Retry
pub mod Drain
pub mod Matrix
