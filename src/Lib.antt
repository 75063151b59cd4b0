-- ===== src/Lib.antt =====
-- worker-hive-relay: models of the relay between a job bus (the "hive") and a remote node, which
-- meet in an object-store bucket only, and theorems about them.
--
-- The program, and the file that models each part:
-- * node_relay/relay_crypto.py seals what crosses the bucket. Crypto.antt has `load_key`, `aad_for`,
--   `seal` and `open_blob` with their checks and their framing; AES-GCM, JSON and base64 are the
--   fields of `Codec`. Crypto/Framing and Crypto/Binding prove over the laws `IsAead`.
-- * node_relay/relay_client.py is the queue in the bucket. Backend/Interface.antt is `_Backend` as
--   a record of operations with the laws of conditional writes (`IsLawful`); Backend/Memory.antt
--   is the in-memory store of tests/node_relay/test_relay_flow.py and proves that it is lawful.
--   Client.antt has the operations of `RelayClient` on a `World` (the bucket, the scan cursors, the
--   readings of the clock and of the random source), and Client/Sweep.antt `_iter_uuids`; the
--   generator and the loop that consumes it are one loop.
-- * node_relay/node_poller.py runs jobs on the node. Poller.antt has `_ClaimLease`, `_write_terminal`,
--   `_read_claimant`, `_process_claimed_job` and `run_once`; the executor is a parameter.
-- * node_relay/bridge_common.py is the client of the bus: Hive.antt, where the bus is a parameter
--   (`Bus`) that answers requests and keeps a state of its own.
-- * node_relay/reconciler.py reports terminal objects to the bus and purges them: Reconciler.antt,
--   where the lander of patches is a parameter (`Lander`).
-- * node_relay/lander.py pushes the patches as review branches. Git.antt has git and the disk as a
--   parameter (`System`), the credentials and the reading of git's failures; Branches.antt the names
--   of branches, clones and locks; PatchLander.antt the checks of `land`, PatchLander/Cache.antt the
--   clones, and PatchLander/Land.antt `land` and `save_orphan_patch`. PatchLander/Wedged puts the
--   lander under the reconciler.
-- * node_relay/enqueuer.py feeds the bucket. Enqueuer.antt has `renew_active_jobs`, `read_gpu` and
--   `gpu_metadata`, Enqueuer/Payload.antt `build_payload`, and Enqueuer/Feed.antt `run_once`. What
--   they take from MNEMOS (`mnemos_search` and `mnemos_get` of node_relay/bridge_common.py) is
--   Mnemos.antt.
--
-- Executors.antt has the chat executors, their fallback chain and their dispatch, and Edits.antt the
-- guards of `AgenticRepoExecutor` on the files that a model proposes, both of
-- node_relay/node_poller.py; there the clone is a parameter (`Clone`). Edits/Credentials.antt is the
-- node's own copy of the policy on tokens, `_git_auth_for_url`.
--
-- Repos.antt has the allowlist of repositories (`repo_aliases`, `repo_url_for_kind`, `repo_url_for_job` of
-- node_relay/node_poller.py) and `_node_should_offload` of node_relay/enqueuer.py.
--
-- How state and errors are read: an operation is a function from a world to a result and a world
-- (Exec.antt), so what was written before an exception stays written. `attempt` is a `try`, and
-- each `except` clause is a function on the error's kind. Exceptions of the libraries that the code
-- does not tell apart are of the kind `other`. Messages of exceptions and notes leave out what the
-- source interpolates into them, but for the ones that end up in a result. The numbers of Value.antt
-- are natural, and below what a float reaches: times are whole units, as are leases; fractions,
-- negative numbers and the OverflowError of `float` on a huge integer are not modelled. An id of a
-- job that is no text stands as its text, but for the set of released ids, which takes no list.
--
-- How failures of the outside are read: `IsLawful` is about a store whose requests are answered, and
-- the theorems that take it say nothing of one that fails; Reconciler/Untouched does without it, on
-- a store whose requests may raise. `System.run` may raise, as `subprocess.run` does for an OSError.
--
-- Interleaving: a theorem about two workers is about a sequence of their operations on one store,
-- where each request to the store is atomic, as both stores document for conditional writes. The
-- renewal thread of `_ClaimLease` is the number `beats` of renewals that run before the executor
-- answers, and its lock makes each of them a step of its own.
--
-- Termination: the loops of the modelled code are structural over a listing or over `beats`, but for
-- the `while True` of the enqueuer's `run_once`, which has fuel for its rounds (Enqueuer/Terminates
-- says how much is enough). Service loops (`main`) are not modelled.
--
-- Not modelled: the bindings of the two object stores (their contract is the law `IsLawful`), the
-- choice of a store from the environment, the prompts and the retry loop of `AgenticRepoExecutor`
-- (its git calls, the compile check and the parsing of the model's blocks), GPU sampling, logging,
-- argument parsing, tools/graph_query.py, node_relay/home.py, and the shell scripts and service
-- units.
pub mod Prelude
pub mod Exec
pub mod Value
pub mod Env
pub mod Crypto
pub mod Backend
pub mod Client
pub mod Poller
pub mod Hive
pub mod Reconciler
pub mod Enqueuer
pub mod Repos
pub mod Git
pub mod Branches
pub mod PatchLander
pub mod Mnemos
pub mod Executors
pub mod Edits
pub mod Tests
