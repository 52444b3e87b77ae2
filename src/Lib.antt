-- ===== src/Lib.antt =====
-- InvoiceOps: the processing of supplier invoices. Paths below are relative to
-- src/invoiceops_agent.
--
-- An upload is hashed and recorded (api/services/ingest.py); a graph of nodes then extracts,
-- validates, matches and judges the invoice (graph/), and either approves it or opens an
-- exception, which a human decides (api/services/decisions.py). Every step appends to the audit
-- ledger (ledger/api.py); a node that fails is retried (graph/retries.py), and what fails for good
-- goes to the dead-letter queue (graph/dlq.py). The agents reach the models through one client
-- (gateway_client/); the screens read the tables through the queue and the dashboard (api/services/).
--
-- Which file models which part:
--   Prelude       shared types, texts as lists of character codes, lists, sorting, integers.
--   Decimal       Python's Decimal as a coefficient and a number of places, exact.
--   Float         floating-point numbers, a parameter with the laws that the proofs use;
--                 Float.Fixed is an instance of those laws.
--   Validation    tools/validation.py, with its configuration; the extraction that
--                 agents/extraction.py returns.
--   Matching      tools/matching.py, with its configuration.
--   Policy        tools/policy.py, with its configuration.
--   Taxonomy      tools/exception_taxonomy.py.
--   Gate          tools/confidence_gate.py, with its configuration.
--   Database      db/models.py: the rows, with a sequence of keys for each table.
--   Ledger        ledger/api.py.
--   Ingest        api/services/ingest.py.
--   Decisions     api/services/decisions.py and api/schemas/decisions.py.
--   Retry         graph/errors.py and graph/retries.py.
--   Dlq           graph/dlq.py.
--   Graph         graph/state.py, graph/routing.py and graph/builder.py. Graph.Context, Graph.Nodes,
--                 Graph.Judged and Graph.Triage are graph/nodes/pipeline.py, a function run_<node>
--                 for each node; Graph.Machine is the graph as it runs: a thread has the state of its last
--                 checkpoint and a position. Graph.Stage says what the nodes establish.
--                 Graph.Runner is graph/runner.py with its record of a failure.
--   Gateway       gateway_client/guardrails.py and the checks of gateway_client/client.py;
--                 Gateway.Transport is `_raw_content` with gateway_client/cassettes.py,
--                 Gateway.Completion is `complete` and `embed`, Gateway.Json is `_extract_json`.
--   Queue         api/services/queue.py, with the roles of api/auth.py: Queue is the query,
--                 Queue.Detail the page and its views, Queue.Aggregate the detail of an invoice.
--   Dashboard     api/services/dashboard.py.
--   Trace         api/services/trace.py.
--   Agents        agents/triage.py; Agents.Readings the validators of agents/extraction.py.
--   NearDup       tools/near_dup.py, but for the hashing embedder.
--   Erp           data/erp.py, but for the loops of `generate`; Erp.Generate draws the rows.
--   Metrics       eval/metrics.py.
--   Examples      concrete data on which the theorems are applied.
--
-- How the code is read:
--   - a handler takes the state and the database and returns both, changed; a transaction that
--     raises returns `none` and changes nothing. Reply types list the ways in which a call ends.
--   - Graph.Machine.invoke runs at most so many nodes as its fuel says; the graph has eleven nodes
--     and no edge leads back, so nine are enough.
--   - the retry loops of graph/retries.py and of the gateway's transport recurse on the attempts that
--     are left, and so do the two attempts at a structured answer.
--   - a query is a function on the rows; where a query orders rows, the database's sort is
--     Prelude/Sorting, an insertion sort by the comparison of the query, and rows that the query does
--     not order keep an order that nothing relies on.
--   - the network of the gateway is a function from the number of a request to what comes back.
--   - enumerations are data types with their texts beside them; a dictionary of a finding is a
--     record with the texts, which exception_triage reads back.
--
-- What is assumed:
--   - decimals are exact: the amounts have far fewer than the 28 digits of Python's context;
--     `normalized_delta` is kept as the exact fraction before `float`.
--   - texts are ASCII where the code folds case or strips blanks.
--   - SHA-256, the object store, the extraction and triage agents, the near-duplicate hits, the
--     clock and the reading of ISO dates are parameters of the pipeline; regular expressions, the
--     schema and the hash of a request those of the gateway; the embedder and the distance of vectors
--     those of the search; random numbers, fake names and printing those of the generator.
--   - PostgreSQL puts an absent value last in ascending and first in descending order.
--   - a pause after exception_triage is recognised as one, so that only a decision resumes it.
--
-- What is not modelled: the `detail` texts of findings, log lines and traces, latencies and the lengths
-- of retry delays, the HTTP surface, the prompts, storage, the scripts of the
-- evaluation, the seeding of the tables, and the hashing embedder.
pub mod Prelude
pub mod Decimal
pub mod Float
pub mod Gate
pub mod Taxonomy
pub mod Validation
pub mod Matching
pub mod Policy
pub mod Database
pub mod Ledger
pub mod Decisions
pub mod Ingest
pub mod Retry
pub mod Dlq
pub mod Agents
pub mod Gateway
pub mod Graph
pub mod Erp
pub mod Metrics
pub mod NearDup
pub mod Queue
pub mod Trace
pub mod Dashboard
pub mod Examples
