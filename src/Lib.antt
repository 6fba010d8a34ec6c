-- ===== src/Lib.antt =====
-- Agent-Analysis: a verification library of the control backend (backend/app), which runs chains of
-- handlers over a repository under hard gates, and lets only an independent verifier decide PASS.
--
-- The parts, and the file that models each:
--
--   Schemas            the records and enumerations of backend/app/schemas and constants.py. An enum
--                      is a data type with a function to its value; a float that no code computes
--                      with is its decimal text; a `dict` of JSON is a `Fields`. Reading has how the
--                      handlers read a JSON value, with `none` for the exception on a wrong type.
--   Gates              backend/app/gates: each gate is `<name>_gate`, made of the tests and the
--                      reasons in the order of the source. The child `Admits` (`Supports` for the
--                      evidence gate) states what the gate passes, in terms free of the tests.
--   Storage            backend/app/storage: EvidenceWriter is evidence_writer.py, ArtifactStore is
--                      artifact_store.py and hashing.py over a list of files.
--   Chains             backend/app/chains: Context is context.py, Registry is registry.py, Rounds has
--                      the steps of chain_executor.py and Executor its `execute`. The loop is
--                      structural recursion on the handler names of a chain, with a `Round` for
--                      `break`. The executor takes the handlers as a registry: any functions from a
--                      request and a context to a result and a context, or to an exception (`none`).
--   Handlers           backend/app/handlers: Authority and Base are authority.py and base.py, Control
--                      is control.py, Verification is verification.py, Release is pr.py and
--                      evaluation.py, Implementation (with its child Diff) and Reproduction are
--                      implementation.py, Analysis is analysis.py with its agent steps in the child
--                      Analyst, Dependency is dependency.py, Documentation is documentation.py with
--                      the verifier of security.py, Security is the rest of that, CiFailure is
--                      ci_failure.py, and Registered is build_default_registry. Commands and
--                      Advisories have what two of them share, Host the operations of the machine.
--                      `handle` is a function named for what it does.
--   Workflows          backend/app/workflows/analysis_workflow.py.
--   Llm, Agents        backend/app/llm (base.py is Router, recorder.py is Recorder), and
--                      backend/app/agents with backend/app/parsing.
--   Machine            backend/app/state_machine.py; Machine/Budget is retry_budget.py.
--   Tools, Runners     backend/app/tools and backend/app/runners.
--   Runtime            backend/app/runtime: the workspace policy, the allocation of attempts, and the
--                      git queries that it makes (runners/git_runner.py).
--   Api                backend/app/api: Records is storage/run_records.py and run_repository.py, Runs
--                      is routes_runs.py, Plans and Chains are routes_chains.py. An endpoint takes the
--                      repository and returns its reply with the repository that it leaves; Boundary
--                      serves sequences of requests.
--   Platform           what the program takes from Python: the digest, fnmatch, JSON, paths, the
--                      clock and rounding, as parameters with no assumed law.
--   Prelude, Witnesses shared names and lemmas, and the results applied to concrete data.
--
-- How they interact: an API request is served on the repository of records; `execute_chain` binds
-- the request to the record, allocates an attempt and calls the executor, which routes the task type
-- to a chain and visits its handlers; a handler calls the gates and writes artifacts and ledger
-- entries through the context; the analyst step runs tools and calls a declared model through the
-- agent runtime; the verifier's status becomes the verifier decision.
--
-- State is passed explicitly. The request is part of the context, since one handler writes to its
-- metadata, and each handler is given the request that the context holds. The clock is a counter of
-- its readings, so that the times in records are those of the source's calls in order; the calls of
-- adapters and limiters are counted too, so that each may answer differently. Integers of Python are
-- unbounded, as in the model. Every loop of the modelled code is over a list that exists before it
-- starts, except the fallbacks of the router: `Llm.Router.invoke` runs on fuel, of which more than the
-- rank of the first model is enough where fallbacks descend in a rank.
--
-- An exception that the code can raise on what it is given is modelled, as `none` or as a reply. One
-- that the machine raises is not: a file that cannot be read or decoded, a disk that takes no more, a
-- stream that is no UTF-8. Such an exception ends the run, and the results are of the runs without it.
-- A command that times out after it has written something leaves bytes, not text; the handlers then
-- fail to print their logs, which is modelled.
--
-- What is not modelled: the durable repository with the serialization of its rows (SQL and a database
-- driver); the rate limiter, which divides floats by a clock and is a parameter of the router; the
-- catalog of declared models and the adapters (configuration, and code that calls services); the
-- texts that the four read-only tools print; the wiring of the web application.
pub mod Prelude
pub mod Schemas
pub mod Gates
pub mod Storage
pub mod Platform
pub mod Chains
pub mod Workflows
pub mod Llm
pub mod Agents
pub mod Handlers
pub mod Runtime
pub mod Api
pub mod Tools
pub mod Runners
pub mod Machine
pub mod Witnesses
