-- ===== src/Lib.antt =====
-- LocalPlane is a console for one host. A backend (src/localplane/backend) observes the host through an
-- agent (src/localplane/agent), retains an operator's intent for what it has adopted, compares the two,
-- and publishes plans of changes with a judgement of each: what protects the target, how risky the change
-- is, what confirming it takes, and which way of executing it is open. The agent makes the changes, through
-- a privileged helper (src/localplane/helper), and holds the reversal of a change that could cut the
-- operator off until that change is confirmed. This library models the judgements, the engine that carries a
-- plan out, the agent's guards, how the backend settles them, and the sessions of the console's users.
--
-- Each part's operations are functions of the source's names or close to them, its records and enumerations are types with the
-- source's fields and members, and what the source raises is a value of a result type or `none`.
--
-- - GuardRegistry: src/localplane/agent/guard.py. The registry of armed reversals. Every handler runs
--   under the one lock, so that an interleaving of threads is a sequence of handler calls (`Event`, `run`);
--   `Registry.dispatched` is a record of the calls of `mutate` that the source does not keep. The clock's
--   readings are arguments of the calls, in microseconds. `mutate` is a parameter, and so are the times at
--   which the timers expire.
-- - Intent: src/localplane/backend/domain/intent.py. The capture of values from an observation, and the plans
--   of a revision. An `Any` value is a `Raw`; a missing key's exception is `key_error`.
-- - Reconciliation: src/localplane/backend/domain/reconciliation.py. The retained intent against one
--   observation.
-- - Protection: src/localplane/backend/domain/protection.py. The reasons that protect a target, rolled up.
-- - Lifecycle: src/localplane/backend/domain/systemd_lifecycle.py. What acting on a service reaches, and
--   whether the service may be acted on. The validation and the serialisation of contexts are not modelled.
-- - SelfImpact: src/localplane/backend/domain/self_impact.py. Whether an action may interrupt the backend
--   itself, and whether an override can cover that.
-- - Policy: src/localplane/backend/domain/policy.py, with the types of domain/runs.py and domain/guard.py. The
--   operation's definition; guard, risk, confirmation and execution in a module each. The judgements interact
--   as in the source: execution takes the protection that Protection rolls up, the plan that `assess_guard`
--   gives, and the assessment of SelfImpact; confirmation takes the tier that `assess_risk` gives.
-- - Provenance: src/localplane/backend/domain/provenance.py, from the claims on: what they say together, whether
--   they block an act or an adoption, and the gate of policy.py that Policy's execution takes the answer of.
-- - Sessions: src/localplane/backend/auth.py, the store of browser sessions and their renewal, with the digest,
--   the clock, the lifetime and the random tokens as parameters.
-- - Settlement: how the backend reads the agent's answer about a guard (src/localplane/backend/operations.py)
--   and what it takes the change for (src/localplane/backend/domain/guard.py), over the outcomes of
--   src/localplane/backend/domain/changes.py. It takes the answers of GuardRegistry.
-- - Recovery: src/localplane/backend/domain/changes.py. What an interrupted change is taken for, and which
--   attempts at recovery release the hold on their target.
-- - Engine: src/localplane/backend/changes.py, the engine that carries a published plan out. `Store` is what the
--   database keeps of one run; a transaction is one function on it; the executor of the operation, which calls the
--   host, is a parameter whose answers may depend on all calls made before. Engine/Actions is the monad of these
--   steps, which keeps every moment at which the process could die. Constraints is what the store lets in. Steps, Boundary, Endings, Apply, Held, Restart
--   and Confirm are the operations of the source, in their order: the authority, the checkpoint and the guard, the
--   write boundary, the dispatch, the reading back, the rollback and the ends. Engine/Reach composes them: a run is
--   asked any of these, one after another in any order, and any of it may be cut short. Operations on one run that
--   overlap are not among them, nor what a recovery asks of the host; that both may give the run's lock back is. What
--   the store refuses (the triggers and CHECKs of db/migrations on checkpoints, guards and the insertion of a change) is
--   a test of the transaction that it refuses; the CHECKs on later changes of a change's row are not modelled. Logic and Total are the rules by which the
--   operations are judged, InFlight, Safe and Total/Ends apply them, and Promises states what follows.
--   The engine takes its outcomes from Settlement and Recovery, and its eligibility from Policy. What planning the
--   operation again gives is an argument, and so is the relation of the request's path to the object. An error of
--   the database is refused as "integrity_error", and a failed assertion as "assertion_error".
-- - ManagementPath: src/localplane/backend/domain/management_path.py, src/localplane/backend/domain/states.py
--   (`derive_freshness`) and of src/localplane/backend/management_path.py the addresses of the observed interfaces.
--   ManagementPath.antt reads the connection's ends, Derive gives the verdict, Observed collects the addresses;
--   Transport, Matching, Carried, Proven and Observed hold the theorems. Reading an address or a moment is a parameter. Protection takes
--   the verdict.
-- - Helper: src/localplane/helper/service.py and src/localplane/helper/mtu.py. The one mutating method. Params checks a
--   message's parameters; Helper.antt is the memory of attempts over any setter; Struct is Python's `struct`; Netlink
--   frames requests and Netlink/Read reads replies; Setter is the exchange with the kernel, its checks and its outcomes;
--   Service puts the setter under the handler. The socket is a parameter that says what became of one datagram,
--   and `bytes.decode` and `os.strerror` are parameters. An exception of Python's `struct` is a value. The details
--   that only describe an error are left out. Helper/Netlink/Loops, Stream, Attribute and Acknowledged and the children
--   of Setter, Params and Service hold the theorems.
-- - Prelude: numbers, texts, lists and dictionaries shared by all. A Python `dict` is a list of entries in
--   the order of insertion; an `int` that may be negative is a ℤ over the native ℕ.
-- - Examples: the theorems at concrete inputs.
--
-- The two loops over a netlink reply run on fuel, one round more than the bytes they read; each round passes a header
-- of at least four bytes, so they never run out. Every other loop is over a list and is structural recursion. A window is at most 600
-- seconds and the memory of settled guards has at most 64 entries, as in the source.
--
-- Not modelled: texts that are only shown (summaries, factor details, messages), `evidence` mappings, the
-- agent's providers that run commands and parse their output, the sockets between the processes, the
-- database (of which only the rows of one run are kept), the HTTP API and its schemas, the master secret and the
-- checks of a request's origin, the host calls and the records of the engine's recovery of a held change, and the web console.
pub mod Prelude
pub mod GuardRegistry
pub mod Intent
pub mod Reconciliation
pub mod Protection
pub mod Provenance
pub mod Lifecycle
pub mod ManagementPath
pub mod SelfImpact
pub mod Policy
pub mod Sessions
pub mod Settlement
pub mod Recovery
pub mod Engine
pub mod Helper
pub mod Examples
