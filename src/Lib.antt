-- ===== src/Lib.antt =====
-- A model of the backend of the multi-agent platform: a FastAPI application that takes requests for
-- analyses, Celery workers that run them, and a Redis server through which everything communicates.
-- Paths are from the repository's root.
--
-- How the parts interact. POST /analyze (Api, for api/main.py) looks a client's key up in the
-- idempotency cache (Idempotency, core/idempotency.py), counts the request (RateLimiting,
-- core/rate_limiting.py), tests the queue depths (QueueControl, core/queue_control.py), creates a
-- job (Jobs, core/jobs.py), sends a task to Celery and writes the audit log (Rbac, core/rbac.py). A
-- worker (Worker, worker.py) takes the job's lock (JobLocking, core/job_locking.py), runs the
-- analysis, writes the result into the job, and lowers the depths. The analysis (SupplyChain:
-- core/orchestrator.py, core/tools.py and sectors/supply_chain/) asks a weather service under the
-- circuit breaker (CircuitBreaker, core/circuit_breaker.py) and the ERP (Erp,
-- core/erpuiux_connector.py), draws conclusions by rules, and has an LLM write a decision
-- (Llm, core/llm.py). If the confidence is low (Hitl, core/hitl.py) a reviewer is asked, who answers
-- at the endpoints of HitlRoutes (api/hitl_routes.py); a second task closes the job when the timeout
-- has passed.
-- Registry is sectors/registry.py. SupplyChain.Service puts the worker and the analysis together.
-- A decision that stands is kept in the memory of its product (Memory, core/memory.py and
-- core/memory_safety.py); POST /outcomes (Api.Outcomes) compares the demand that was met with it.
-- Costs (core/cost_alerting.py) and Kpis.Report (core/kpis.py) keep figures for each tenant, and
-- Observability (api/observability_routes.py and the reading endpoints of api/main.py) shows them.
-- Orchestrator is the rest of core/orchestrator.py: the graph of any sector, how LangGraph walks it,
-- and the cache of graphs; SupplyChain.Graph puts the agents of the supply chain into it. Rag (core/rag_memory.py) builds the context of past decisions for the
-- prompt. Connectors (core/connectors.py, core/erpnext_connector.py) reads sales and stock from
-- other sources, for which Secrets (core/secrets.py) keeps the keys; no agent calls it.
-- Api.Webhooks is the validation of a webhook address, and Demo (demo/fake_db.py) the store of the
-- demo mode. SupplyChain.Feedback follows an analysis to the outcome of its job. A module models the
-- code, its children prove one kind of property each, and its Tests hold runs at concrete inputs.
--
-- State. Redis is an interface (Redis): the commands that the program sends, with their documented
-- laws, over a database of typed keys. `peek s k d` is what GET answers `d` seconds from now, so that
-- expiry is part of the laws. Redis.Memory is an implementation that satisfies them, and
-- every witness that needs a server runs on it. Documents has the JSON documents that are kept under the keys, State the
-- shared state of an analysis (core/state.py, core/schemas.py); a key of a dict that may be missing
-- is an `Option`. Operations take the database and return the new one; what they send (tasks,
-- webhooks, HTTP errors) is part of what they return.
--
-- Numbers. The clock, new ids and settings from the environment are arguments; times are whole
-- seconds. Decimals are scaled integers with the rounding of Python's `round` (Prelude.Round):
-- temperatures and days in tenths, demand and multipliers in hundredths, confidences in thousandths.
-- Amounts of money are millionths of a dollar, accuracies and factors thousandths. The binary
-- representation of floats is not modelled; quantities and demands are whole units. Exceptions are
-- constructors of the results. What cuts an analysis off from outside, as Celery's soft time limit
-- does, is an argument of `run_analysis` (SupplyChain.Orchestrator), with what is left on the server
-- by then; it is taken to strike in the analysis and not in the code of the worker. Recursion on fuel is in two places: in Worker.Retries it bounds the
-- deliveries of one task, and three are enough since Celery retries twice; in Orchestrator.Walk it
-- bounds the nodes that are visited, and four are enough: three phases and END.
--
-- Interleavings. JobLocking.Exclusion is about every sequence of steps of several workers;
-- CircuitBreaker.Invariant about every sequence of whole method calls, of time passing and of other
-- commands; QueueControl.Admission about sequences of whole operations; Demo.Agreement about
-- sequences of calls with pauses. The other modules are about one operation or a given sequence.
--
-- Not modelled: the prompts, and what the LLM answers. Where an agent goes on with a message, its
-- content is taken to be a text: Groq leaves it out for the call of a tool, and no tool is offered;
-- the exception that a missing content leads to when a reviewer is asked is one of those that may cut
-- an analysis off. Nor are modelled: PostgreSQL (db/), and with it the vectors and the SQL of
-- core/rag_memory.py, the accuracy that POST /outcomes writes there, and the configuration of a
-- tenant; embeddings, which a library computes; the random sales history of demo/fake_db.py; tracing
-- (core/tracing.py), which hands calls on to a library; the scripts at the root, the tests and the
-- front end.
pub mod Prelude
pub mod Registry
pub mod Erp
pub mod Llm
pub mod SupplyChain
pub mod Rbac
pub mod Api
pub mod Demo
pub mod Secrets
pub mod State
pub mod Documents
pub mod Redis
pub mod CircuitBreaker
pub mod QueueControl
pub mod RateLimiting
pub mod Idempotency
pub mod JobLocking
pub mod Jobs
pub mod Http
pub mod Hitl
pub mod HitlRoutes
pub mod Worker
pub mod Kpis
pub mod Memory
pub mod Costs
pub mod Connectors
pub mod Observability
pub mod Orchestrator
pub mod Rag
