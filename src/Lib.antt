-- ===== src/Lib.antt =====
-- Verification of the domain core of oh-my-dream, a desktop client that runs AI creation workflows.
--
-- The program. A Workflow is a graph of nodes that commands edit, each node an instance of a
-- capability with a contract; a Run executes one frozen revision of it. Admission freezes an
-- execution plan, the Run aggregate moves its nodes through a state machine and records each change
-- as a numbered event, and its repository saves and restores it. A command starts a Run: the nodes of
-- its scope are selected and checked for readiness, ordered and frozen into the plan, and the queued
-- Run is committed with a receipt that answers the same command again.
--
-- The files. Each module names the code that it models.
-- - Common: Boolean tests, lists, sorted sets, `Result`, methods on `&mut self` as actions
--   `S → Result × S` (the state comes back beside an error too), and the rules of `Keeps`.
--   Common/Bytes has the texts as UTF-8 bytes with their order, Common/Maps a BTreeMap as the list of
--   its entries in ascending order of the keys.
-- - Capability: crates/engine/src/node_capability. Capability/Key is identity.rs and
--   boundary_value.rs, Capability/Parameter the constraints of parameter.rs, Capability/Contract is
--   contract.rs and Capability/Registry is registry.rs, where an implementation is its contract and
--   its normalization of parameters. Capability/Canonical is the canonical encoding of parameter.rs
--   and parameter_decode.rs.
-- - Graph: crates/engine/src/workflow_graph. Graph/Value is error.rs, value.rs, identity.rs and
--   entity.rs; Graph/Aggregate is aggregate.rs without its cycle check, which is Graph/Cycles;
--   Graph/Mutation is mutation_apply.rs, Graph/Mutation/Action mutation_command.rs, and
--   Graph/Mutation/Canonical mutation_hash.rs with mutation_decode.rs; Graph/Receipt is
--   mutation_receipt.rs. A BTreeSet of targets is an ascending list. The loop of the cycle check runs
--   on fuel, one round for each node: a node becomes ready at most once.
-- - Workflow/Value: crates/engine/src/workflow/value.rs and error.rs. A UUID is its 128 bits as a
--   number; a time is a non-negative number of milliseconds; a sequence keeps its u64 overflow.
-- - Workflow/Plan: crates/engine/src/workflow/plan.rs. A BTreeSet is an ascending list, and the
--   map of dependencies is a function. The `while let` loop over the ancestors runs on fuel, one
--   round for each node: a node joins the stack at most once. Plan/Closure is about that loop for any
--   function of sources, and Plan/Accepts about when a plan is accepted.
-- - Workflow/Run: crates/engine/src/workflow/run.rs with run/transition.rs (Run/Transition for the
--   methods on one node, Run/Conclude for those that end the Run) and run/restore.rs (Run/Restore).
--   The proofs stand in the other modules below Run. The output sets and the capability errors that
--   a Run carries are type parameters, since the Run never looks inside them.
-- - Workflow/Readiness: crates/engine/src/workflow/readiness.rs, the structural policy and the order
--   of its report, for any type of issues of capabilities. Readiness/External and Readiness/Derived
--   are these issues and their derived order, of crates/engine/src/node_capability/execution.rs;
--   Readiness/Gather is the check over a graph of crates/engine/src/workflow/use_case.rs.
-- - Workflow/Application: the errors of the use cases and the admission values of
--   crates/engine/src/workflow/interface.rs. The error `unreachable` is the model's own.
-- - Workflow/Admission and Workflow/Start: crates/engine/src/workflow/run_admission.rs. Admission is
--   the selection of nodes, their order and the frozen plan: both of its loops run on fuel, one round
--   for each node. Start is the command with its hash, its receipt, and the use case from the loaded
--   graph to the commit.
-- - Tasks: crates/tasks/src/generation_task/domain, the Generation Task, which follows one call of
--   a provider from submission to its result. Tasks/Identity is identity.rs and error.rs,
--   Tasks/Request is request.rs and result.rs, Tasks/Failure and Tasks/State are the files of those
--   names, Tasks/Canonical is canonical.rs and Tasks/Aggregate is aggregate.rs. A text is its UTF-8
--   bytes, a revision keeps its u64 overflow. Tasks/Aggregate/Machine is the state machine
--   that the methods implement, Tasks/Aggregate/After the order of its states,
--   Tasks/Aggregate/Facts the comparison of immutable facts.
-- - Projects: crates/projects/src/project/domain. Projects/Name is the normalized name of value.rs,
--   a list of Unicode scalar values; Projects/Aggregate is aggregate.rs with the revision and times.
--
-- The graph resolves the contracts of its nodes in the registry and normalizes their parameters; the
-- plan of a Run carries nodes and bindings of the graph, and that the admission freezes a plan which
-- the plan's own checks accept joins the two. A Run and a task meet in the node execution:
-- a node waits for external completion while its task runs, and the task's origin names the node
-- execution. The two aggregates share no state.
--
-- Parameters. What repositories return, the time of the clock and the generated identities are
-- arguments of the start of a Run, as is the readiness that a capability reports of its own: async
-- calls and their deadline are outside the model. Generated identities are distinct, where a theorem
-- needs it. SHA-256 is a function of bytes, which the sha2 crate provides, and the hash of a graph
-- command is a function of its content. That a UUID is not nil and has version 4 is tested by
-- functions of the uuid crate, and left out, except in the decoding of canonical bytes, where this
-- test and that for UTF-8 are parameters. A canvas position is two floats, and a type parameter; its
-- bits and the check of two bit patterns are functions in the encoding of actions.
--
-- Not modelled: the patches of graphs, the errors of a capability's execution, and the use cases that
-- drive these aggregates through repositories and providers, but for the start of a Run. The domain
-- of the assistant, assets and provider settings are left out. The user interface, storage, the network
-- and the assistant's protocol are input and output around this core.
pub mod Common
pub mod Workflow
pub mod Tasks
pub mod Projects
pub mod Capability
pub mod Graph
