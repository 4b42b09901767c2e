-- ===== src/Lib.antt =====
-- The core of TALAP: the WhatsApp shopping assistant from its webhook to its workers, the import
-- of catalogs, and the state that they keep.
--
-- A WhatsApp message is stored with a message processing job. The worker of apps/worker/jobs
-- claims one job, answers its message (with found products, a confirmation of the product whose
-- number the customer replied, or a fixed text) and ends the job. A second queue holds product
-- indexing tasks: a claimed task has the product's text embedded and stored. Both queues are
-- tables in which a claim increments `attempts`, and later calls give that number to show that
-- they own the claim.
--
-- Files:
-- - Jobs, and under it Claim, Outcomes, Steps, Fencing and Errors: talap/ingestion/jobs.py over
--   the table of jobs. Claim is about claim_one_message_processing_job, Outcomes about complete_,
--   release_ and fail_message_processing_job, Steps about any sequence of transactions of several
--   workers, and Fencing about two claims of one job, Errors about the stored error texts.
-- - Ingestion, and under it Rows, Inserts, Counts, Repeats and Redelivery:
--   talap/ingestion/service.py, fingerprints.py and types.py. Rows has the tables, Inserts the
--   insertions of messages and jobs.
-- - Channels.Inbound, with Contract: talap/channels/inbound.py. Channels.Whatsapp.Normalizer,
--   with Messages, Accepted, Bodies and Times: talap/channels/whatsapp/normalizer.py over a JSON
--   value. Channels.Whatsapp.Security: talap/channels/whatsapp/security.py.
-- - Api.Whatsapp, with Authentic and Redelivery: apps/api/routes/whatsapp_webhook.py, which
--   composes the signature, the normalizer and the ingestion.
-- - Catalog.Importer, with Validation, Atomic and Completed: talap/catalog/importer.py.
--   Catalog.Mutation is its last transaction, with Ids, Stored, Completes, Again and Others;
--   Catalog.Parser, with Cells and Counts, is talap/catalog/parser.py, Catalog.Semantic is
--   talap/indexing/decisions.py and scheduler.py, and Catalog.Rows has the tables and the parsed
--   file.
-- - Embeddings.Jina, with Retries and Vectors: talap/embeddings/jina.py.
-- - Extraction, with Validation, Prompts and Requests: talap/ai/customer_request.py.
-- - Indexing.Worker, and under it Claim and Outcomes: talap/indexing/worker.py, in the same way.
-- - Indexing.Documents, with Lines: talap/indexing/documents.py. Indexing.Rows: the columns that
--   the indexing code uses of talap/db/models, and talap/embeddings/types.py.
-- - Indexing.Processor: talap/indexing/processor.py. Read is its first transaction, Write the
--   last one, Results the results and texts. Reported says what each result means; Paths,
--   Effects, Embedded and Raises hold the proofs.
-- - Recommendations, and under it Numeric, Active and Demand: talap/recommendations/service.py,
--   with the tables of talap/db/models/recommendations.py.
-- - Echo, and under it World, Worker, Paths, Effects, Sets, Selection and Unreadable:
--   apps/worker/jobs/whatsapp_echo.py. Echo has the texts, World the state, Worker the run.
-- - Common: Python values (text as code points, numbers and their decimal print), calls that
--   return or raise, tables with a primary key, sorted selections.
-- - Each Examples file has concrete rows and calls of its part.
--
-- How the code corresponds: a table is a list of rows, and a function with a transaction is a
-- function of the tables to its result and the tables that it commits; one that raises commits
-- nothing, but that an import commits the steps before it. A row locked by another claim is a
-- parameter of a claim, which passes over it. Times are integers of microseconds, and UUIDs
-- numbers in the order of the database. The processor and the worker run several transactions,
-- and other workers may commit between them: the processor is given any database for its last
-- transaction, and the worker any change of the table of jobs after its claim.
--
-- A webhook is verified, normalized and ingested, which stores its messages with their jobs. An
-- import stores products and creates their indexing tasks; it is modelled as the only writer
-- while it runs.
--
-- Parameters, for what is outside of the repository's code or is read elsewhere: the HTTP
-- exchanges with the embedding provider, and with the language model, floating point numbers,
-- SHA-256, HMAC, the JSON that is read and written, csv, the validation of a catalog row by
-- pydantic, whether the database refuses a statement of an import, the extractor, the search, the
-- WhatsApp client's send, the digits of Unicode, the conversions of UUIDs, and whether a
-- transaction of the recommendations fails. Of these the laws that are assumed are those of the
-- ASCII digits, and that the largest delay of a retry is not less than itself.
--
-- The pydantic models of talap/channels/inbound.py and talap/ai/customer_request.py are written
-- out. Common.Pydantic has the text that pydantic makes of a `str` with `str_strip_whitespace`:
-- it trims the white space of Unicode, which is less than `str.strip` does, and refuses lone
-- surrogates.
--
-- No loop of the modelled code needs fuel: the retries of the embedding client recurse on their
-- number. The print of a number `n` uses `n + 1` steps, which is more than its digits.
--
-- Not modelled: the other web routes and the schemas of apps/api, the Telegram channel and the
-- WhatsApp client of talap/channels, the SQL of the search, the evaluation tools, migrations and
-- settings. A failure of the database itself in the calls that end a job, and writers beside a
-- running import, are not modelled either; neither are the refusals by the database of a text
-- that is too long or has a NUL.
pub mod Common
pub mod Jobs
pub mod Indexing
pub mod Recommendations
pub mod Echo
pub mod Ingestion
pub mod Embeddings
pub mod Catalog
pub mod Extraction
pub mod Channels
pub mod Api
