-- ===== src/Lib.antt =====
-- execution-accelerator remediates vulnerable Maven dependencies. A ticket names a vulnerability; a
-- state graph (LangGraph) takes each affected repository through verification, policy, one of three
-- remediation lanes, validation and delivery, with pauses for human approval and a bounded number
-- of retries. This library models that program as written in src/execution_accelerator.
--
-- Parts, and the code that each is about:
--   Prelude     shared types, tests on numbers, lists, texts, and code that may raise (Outcome)
--   Version     services/version_range.py: versions, Maven ranges, the lowest fix
--   Schemas     schemas.py: enumerations and records, with the constructors of the source
--   State       state.py: RemediationState and require_state_field, require_state_condition,
--               build_state_invariant_update
--   Policy      policy/engine.py: PolicyEngine.evaluate
--   Nodes       nodes/: one module for each group of handlers. A handler takes the state and answers
--               with the next state, or raises; the update that the Python function returns is
--               applied to the state, as the graph does.
--     Intake, Verification, ApplyPolicy, Approval, PomPlan, Remediation, ComplexLane, Validation,
--     Delivery (with Continuation and Summary), Classify and Retry (classify_failure.py), Escalate,
--     Repair
--   Graph       graph/builder.py: Edges has the nodes, selectors and edges of
--               build_remediation_graph; Run has the execution of nodes and resume_ticket_run
--   Java        nodes/remediation.py, second half: Symbols reads and renders symbols, Rewrites chooses
--               the rewrites of a file (_iter_complex_…), Parentheses and Constructors rewrite the
--               calls of constructors
--   Llm         llm/: Redact (redact_prompt) and Call (structured_call, its budgets and its retry)
--   ToughPath   tough_path/: ApiDiff has the difference of two interfaces (diff_public_apis), Recipes
--               the choice of a recipe (RecipeRegistry.lookup)
--   Tests       runs at concrete inputs
--
-- How the parts interact: Graph.Run runs the handler of a node on the state of a thread and then the
-- edge of the node (Graph.Edges) on the state that it left. Feedback is given to a thread that has
-- ended, that waits before a review, or that stopped because a node raised (Move in Graph.Run); the
-- edges behind the review decide how the thread goes on. Each process of a run has settings of its
-- own (dry run, limits, policy): the command line sets them for one process, and they are not kept
-- with the thread. A round may also run a review without feedback, which is more than the program
-- does, since the graph pauses there; the theorems on runs hold for those rounds as well.
--
-- Services outside are parameters: Jira, the repository inventory, Maven, git, GitHub, the advisory
-- database, the language model and the file system are records of functions (DeliveryAdapter,
-- ValidationAdapter, InventoryAdapter, ComplexAdapter, LlmClient and the types beside them). An
-- adapter answers with a value or raises; in Graph.Run the adapters may be others in each round. A
-- call of the language model also changes the state of the outside; what a client was asked is read
-- off a client that keeps its prompts there (recording in Llm.Sent).
--
-- Numbers are natural numbers; counters of the program are never negative, and Python's integers do
-- not overflow. A confidence is counted in ten-thousandths. Texts are native strings where the
-- program only compares and joins them, and lists of code points where it looks inside; lower case,
-- blanks and digits are those of ASCII. The order in which Python reads a set is a parameter where it
-- matters (pick_lowest_fix_version).
--
-- Bounds: str(n) has fuel n + 1, one round for each digit, and n + 1 is more than the digits of n.
-- No other recursion has fuel. Runs are a relation; they end by the measure of Graph.Measure, which
-- counts the open repositories, the attempts that are left, and the place in an attempt.
--
-- Not modelled: the rewriting of poms, and of static imports, fields and generated bridges of Java
-- sources in nodes/remediation.py; the adapters (they are parameters); the checkpointer and its limit
-- of 64 rounds; time stamps of audit events; the command line, the configuration, processes of git
-- and Maven, logs and metrics (input and output); the clients of the language model, which go over
-- the network, and the compiled patterns of its redaction; in tough_path, the extraction of symbols,
-- their mapping and the decompiler. The graph does not call the repair nodes.
pub mod Prelude
pub mod Version
pub mod Schemas
pub mod State
pub mod Nodes
pub mod Policy
pub mod Graph
pub mod Java
pub mod Llm
pub mod ToughPath
pub mod Tests
