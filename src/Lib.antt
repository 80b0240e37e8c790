-- ===== src/Lib.antt =====
-- Verification of smol-agent-oci-fs: snapshots of an agent's directory, kept as OCI layers.
--
-- A snapshot scans a directory into a tree of entries, takes the difference from the tree of its
-- parent, and stores the changed entries and the deleted paths as a layer, a tar archive in which a
-- deletion is a whiteout. A restore extracts the layers of a chain one after the other. A mount
-- gives the agent an overlay whose upper directory is merged into the tree of the parent.
--
-- Base, Base/*.antt        bytes for Go strings with the functions of package strings, sorting,
--                          lists, and association lists for maps.
-- Paths/Components.antt    filepath.Clean, Split, Dir, Base and Join, on bytes; canonicalLayerPath of
--                          internal/osix/snapshot.go, canonicalReadPath of lazy_read.go, and the paths
--                          of lower_store.go.
-- Paths/Canonical.antt     what the guard canonicalLayerPath accepts.
-- Paths/Parent.antt        a path as its directory and its last component.
-- Tree/Entry.antt          TreeEntry of types.go and treeMap; a path covered by a whiteout.
-- Tree/Whiteout            mergeWhiteouts: Defs has the code, Covering and Minimal its properties.
-- Tree/Diff.antt           diffLayerEntries and typeChangeWhiteouts; Diff/Layer.antt the lemmas.
-- Tree/Overlay.antt        changedOverlayEntries and mergeOverlayTree; Overlay/Merge.antt what the
--                          merged tree has at each path.
-- Tree/Changes             diffTrees and diffOverlayUpper of snapshot.go; Exact has what is reported.
-- Policy/PathRules.antt    shouldExclude of snapshot.go and shouldRedact of policy.go.
-- Layer/Disk.antt          the directory below the target as a function from paths to nodes, with the
--                          os functions that the code calls, and the guards against links.
-- Layer/Names.antt         the names of whiteouts.
-- Layer/Make.antt          makeLayer; a layer is the sequence of its headers with their contents.
-- Layer/Extract.antt       extractLayer, applyWhiteout and validateWhiteoutHeader, every branch.
-- Layer/Scan.antt          the entry that scanTree makes for a node.
-- Layer/Descent, Making, Entries, Whiteouts, Removal, Writing, Restore
--                          the steps to the round trip: parents are made, whiteouts remove what they
--                          cover and nothing else, entries are written in the order of their paths.
-- SideEffects              internal/osix/side_effect_adapter.go: Ledger has readSideEffectLedger and
--                          matchSideEffectEntry, Decision has CheckSideEffect, and Replay what it
--                          lets through after a restore.
-- Store/Refs.antt          safeRefName, digestHex and writeRefsIfExpected of internal/osix/store.go, with
--                          a parameter for each call of the operating system that can fail; Atomic
--                          has the property of the transaction.
-- Store/Chain              resolveRef, readBlob, loadManifest and snapshotChainWithDigests of store.go: the
--                          loop runs on fuel, two more than the files of the blob directory; Counting
--                          and Ends show that it is enough, Loading what a loaded snapshot went through.
-- Compact                  listRefs of store.go, reachableBlobDigests and pruneLocalSnapshots of
--                          internal/osix/compact.go: Kept is about blobs, Reachable about chains.
-- Compact/Plan             the plan of Compact of compact.go; Candidates is what it may delete.
-- Restore                  commitRestoreTarget of snapshot.go as a step relation, and
--                          recoverRestoreBackup; Crash has what they leave.
-- Reads/Range.antt         sliceRange of lazy_read.go, with int64 sums; `none` is a panic.
-- Reads/Lazy               ReadSnapshotFile, ReadSnapshotFileRange and readFileFromLayer of
--                          lazy_read.go: Layer has what a read finds in a layer that makeLayer made,
--                          Agreement compares it with the restore, Chain follows the chain.
-- Reads/Source.antt        restoreSourceDigestForEntry of snapshot.go.
-- Base/Decimal, Base/Trim  strconv.Atoi and fmt.Sprintf of an int on bytes, and trimmed texts.
-- Lower                    Lookup and ReadDir of internal/osix/lower_store.go; Children the paths in a
--                          directory, Listing what is listed.
-- Registry                 checkRemoteTagPreconditions and mergeDescriptors of registry.go, uniqueTags of
--                          snapshot.go; Push has their properties.
-- Signing                  dssePAE of signing.go.
-- Operator/Types, Status   the resources of internal/k8soperator/types.go, NormalizeFileSystem,
--                          ValidateFileSystem, SetCondition, and status.go; Conditions has what a
--                          status reports.
-- Operator/Context         CSIVolumeContext of internal/k8soperator/planner.go.
-- Operator/Segment         SafeVolumePathSegment of planner.go.
-- Operator/Plan            PublishPlan, SnapshotPlan and UnpublishPlan of planner.go; LocalMounts what
--                          the steps mount.
-- Csi/Volume               volumeContext of internal/csinode/csi_server.go; RoundTrip and Sent follow
--                          a context from the operator to the node.
-- Csi/Sizes                parseByteSize of internal/csinode/parse.go and the decision of SnapshotNeeded
--                          of node.go, with 64-bit products.
-- Csi/Records              the mount records of internal/csinode/records.go; Writes has what a write
--                          leaves, with each call of the operating system that can fail.
-- Csi/Workers              WorkerManager of internal/csinode/worker.go as a state machine whose steps
--                          are what runs under its lock; Single has its invariant, Reconcile and
--                          Pass what a pass of reconcile leaves, with what happens between its
--                          parts, and Backoff the waits of runWorker.
-- Examples                 tests, and each theorem at an input.
--
-- An error is a value of the model's Result, or `none` where one error is possible. The loop over the
-- ancestors of a path in mergeOverlayTree runs on the length of the path, which is enough for the
-- relative paths of entries, whose directories are shorter; for an absolute path the loop of the source
-- does not end. Numbers are natural numbers; modes and sizes are not
-- computed with.
--
-- Parameters: `redact` stands for the regular expressions of redactLog, `digest` for the digest of
-- a content, `masked` for what the umask leaves of a mode, `parse_mode` and `parse_entry` for
-- json.Unmarshal of a replay marker and of a line of the ledger, `sha256` for the digits of a content, `can_remove` for whether
-- a file can be removed, `order` for the order of a map, `sum16` for the digits of the SHA-256
-- sum of a volume id, `now` for the time of a call, and `load` for the
-- blob of a layer by its digest, read from the store or fetched; `marshal` and `unmarshal` for the JSON
-- of a mount record, `quote` for strconv.Quote, and `names_missing` for whether the error of reading a
-- layer says "not found".
--
-- Not modelled: the tar and zstd encodings, permission bits that stop the process, paths outside of
-- the target directory, Windows separators (ToSlash is the identity),
-- and spaces outside of ASCII at the ends of a text that is trimmed. The writing of blobs, the
-- checkpoint of a compaction, requests to a registry, ciphers and signatures, encrypted layers, the lazy
-- file system, the watcher, and the calls of the CSI node into snapshots and mounts are left out.
pub mod Base
pub mod Paths
pub mod Tree
pub mod Policy
pub mod Layer
pub mod SideEffects
pub mod Reads
pub mod Store
pub mod Operator
pub mod Csi
pub mod Examples
pub mod Restore
pub mod Compact
pub mod Signing
pub mod Registry
pub mod Lower
