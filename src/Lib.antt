-- ===== src/Lib.antt =====
-- pod-snapshotter checkpoints running Kubernetes pods into artifacts and restores pods from them. A
-- manager drives three custom resources through their phases, an agent on each node does the work that
-- needs the node, and an artifact is a tar file or a directory of objects, on the node's disk or in
-- the tree of a fuse client.
--
-- The parts and their files. Paths are those of the repository.
--   Base      lists, bytes, results and numbers. A Go string is the list of its bytes.
--   Go        of Go's standard library, what the program uses: Path is path.Clean, path.Join and
--             path.Base, Url is url.Parse (scheme, host and path of a location).
--   Artifact  internal/artifact. Uri is uri.go: `parse` is Parse, `to_string` String, `host_path`
--             HostPath, `join` Join, `check_local_root` CheckLocalRoot, and so on by name. Manifest is
--             manifest.go: `new_manifest`, `decode_manifest`, `valid_rel_path`. Store is store.go over
--             two trees of objects, one for each scheme: `stat` is Store.Stat, `delete` Store.Delete,
--             which leaves a new pair of trees and a result. Publish is expand.go and publish.go:
--             `expand_tar_to_dir` is ExpandTarToDir, `publish_dir` PublishDir, `write_manifest_dir`
--             WriteManifestDir, as programs of Os. Cache is nvmecache.go: `resolve` is
--             NVMeCache.Resolve, with what os.Stat answers as an argument. Prefetch is prefetch.go:
--             `fetch_one` is fetchOne, and Pool the workers of Prefetch as a relation of steps (the
--             refusal of a missing manifest comes before it). How much a failed copy has moved is an
--             argument.
--   Os        programs: trees of calls (file operations, the container runtime, the API server) whose
--             branches are the answers. Files has what a call may do to the files, failures included,
--             and statements that hold at every point of a program, so where it is cut off too. Laws
--             has statements about the calls that a program makes.
--   Api       api/v1alpha1: Snapshot is podsnapshot_types.go, Restore podrestore_types.go, Compat
--             compatibility.go and the tuple of snapshotbuild_types.go, Common what the resources
--             share.
--   Controller  internal/controller. Snapshot is podsnapshot_controller.go: Pending has
--             `reconcile_pending` and `reconcile_quiescing`, Checkpointing has
--             `reconcile_checkpointing`, `reconcile_delete` and `reconcile`. A run takes the stored
--             object, the in-flight map at the object's key and the calls that run, and returns them
--             with its outcome; the goroutine that reconcileCheckpointing starts is a call of the
--             state, which ends by the step `finish_call`.
--             Restore is podrestore_controller.go in the same style, Pending and Reconcile by handler;
--             its state keeps the pods that were created and deleted. Placeholder is
--             placeholder_pod.go. Build is snapshotbuild_controller.go, and Builder build_pod.go.
--             Steps has the chains of steps that may return early.
--   Agent     internal/agent: Quiesce, Upload and Checkpoint are the three controllers of a PodSnapshot
--             on a node, each `reconcile` a program of Os. System joins them with the manager in one
--             relation of steps; Server is an API server, with a cache before
--             it that may lag, against which a status write is run. Capture is captureShm as a
--             contributor to an expansion, and contribute as one to a publication.
--   Restore   internal/restore. Spec is specrewrite.go: `rewrite_spec` is RewriteSpec between reading
--             spec.dump and writing config.json, with what os.Stat and os.ReadDir see as arguments.
-- How they interact: the controller takes default locations, parsing and printing from Uri; Store
-- takes Uri and Manifest; the controller's deletion of an artifact is a parameter that Store
-- implements. The agents publish artifacts by Publish, and share the stored PodSnapshot with the manager.
--
-- Parameters. Each run has an `Env` (a `RestoreEnv` for a PodRestore): the answers of the API server to
-- reads and to each write (any write may be refused), time.Now, time.ParseDuration and whether the
-- artifact's deletion succeeds. Within one run the same read has the same answer,
-- but for the node, which reconcileCheckpointing reads twice. Store has as
-- parameters which reads and which deletions fail, by object, and the JSON decoder. The digest of a tuple is a
-- parameter. So are, for the agents, SHA-256, the JSON encoders, what archive/tar reads of a tar, and
-- the order of one Go map. In a program each call has an answer of its own, whatever the calls before
-- have answered. A rename may be a copy that is cut off. Loops follow lists, with two exceptions:
-- retry.RetryOnConflict makes five attempts, as its documentation says of DefaultRetry, and
-- clearArtifactDir follows the depth of the tree, at most 2048 since a path of Linux has at most 4096
-- bytes; a deeper tree is an error, not a success. int64 sums wrap at 2^64. Times are in
-- nanoseconds and are not bounded; the addition to a deadline does not wrap. Messages are kept as a
-- format and its arguments, and `%q` is not expanded.
--
-- Not modelled: logging, contexts and cancellation (but for the one of a prefetch), the watch setup, the
-- JSON and HTTP encodings, the kubelet's and the container runtime's own work, generated code, the
-- agent's restore controller and its checks of the node, and the rest of the restore library, of which
-- the captures of /dev/shm and of the writable layer and the search for that layer are calls. An
-- informer's cache that is behind the server is not modelled for the manager: a run reads the stored
-- object. Nor is a stat of a file that tells another size than its contents have.
pub mod Base
pub mod Go
pub mod Artifact
pub mod Api
pub mod Controller
pub mod Os
pub mod Agent
pub mod Restore
