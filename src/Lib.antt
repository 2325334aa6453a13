-- ===== src/Lib.antt =====
-- tax-deeds: the pipeline that turns scanned matrículas (Brazilian property records) into
-- structured data.
--
-- An upload (internal/handlers/documents.go) is stored and becomes a row of the table documents.
-- The ingest service (internal/services/ingest) converts it to page images, records them and hands
-- them to the OCR service through internal/clients/ocr; the OCR worker (cmd/ocr) writes the text of
-- each page and moves the document on. The poller (internal/services/extraction/poller.go) claims
-- documents whose text is there; the extraction service asks the language model
-- (internal/clients/llm), normalises what it answers (internal/services/extraction/normalize.go),
-- stores it and moves the document to its last status. The read service
-- (internal/services/matriculas) and the handlers answer clients. The parts share nothing but the
-- tables of the database (internal/store) and the objects of the bucket (internal/clients/gcs).
--
-- Base, Text and Failure hold what the parts share: lists and tests, Go's strings as lists of code
-- points with the package `unicode` beyond ASCII as a parameter, and Go's errors.
-- Dto is internal/dto. Dates, TaxId and Normalize are internal/services/extraction/normalize.go:
-- normalizeDate, normalizeDoc with validCPF and validCNPJ, and Normalize.
-- Llm is internal/clients/llm: Llm.Enums validateEnums, Llm.Parse parseExtraction, Llm.Chain
-- ExtractMatricula, Llm.Prompt the text of the prompt and the stub. The JSON decoder and the model
-- are parameters.
-- Schema states the constraints of internal/store/migrations/00004_matricula_domain.sql. Aggregate
-- is internal/store/matriculas.go on those tables: Aggregate.Save is SaveAggregate, Aggregate.Load
-- is get with loadAtos, loadProprietarios and loadOnus; Queries holds what a query does with a list
-- of rows. Pipeline puts this store behind the interfaces AggregateTables and AggregateReads, by
-- which the services use it. Pipeline.Delivered follows a turn of the poller, and
-- Pipeline.Transcribed a job of the OCR worker, up to the answer of the endpoint.
-- Store is internal/store/documents.go, internal/store/ocr.go and cmd/ocr/store.go: a statement of
-- SQL is a function on the list of rows, with the instant as an argument (Store.Statements).
-- Store.Machine runs any sequence of these statements, as replicas and workers may interleave them.
-- Extraction is internal/services/extraction: Extraction.Service is extract and ExtractDocument,
-- Extraction.Backoff retryBackoff on int64, Extraction.Poller the loop of tick,
-- Extraction.Poller.Janitor janitor.
-- OcrWorker is cmd/ocr: OcrWorker.Pool is recognizeAll as a step relation, in which the loop, the
-- goroutines of the pages and the deadline take steps in any order, OcrWorker itself page, process
-- and fail, OcrWorker.Env the environment of main.
-- OcrEngine is internal/ocrengine: New, doWithRetry (OcrEngine.Retry) and what the engines take
-- from a reply (OcrEngine.Reply). Web is pkg/middleware, Routes internal/routes, Logger pkg/logger.
-- Storage is internal/clients/gcs: Storage.Objects is about one object, Storage.Images about the
-- page images from the ingest service to the worker. Command is cmd: Command.Api cmd/api with
-- NewPool of internal/store/db.go, Command.Worker the main of cmd/ocr, Command.Migrate cmd/migrate;
-- Command.Resources keeps the account of what a run opens, uses and closes. Llm.Select is New of
-- internal/clients/llm/extractor.go, Extraction.Poller.Tick tick and Run, Ingest.Files the files of
-- the ingest service with internal/services/pdfconvert.
-- OcrClient is internal/clients/ocr/ocr.go, Ingest is internal/services/ingest/ingest.go,
-- Matriculas is internal/services/matriculas/matriculas.go, Handlers is internal/handlers with
-- pkg/response, Config is internal/config/config.go.
-- Samples holds the data of the tests, which stand in the Tests module of each part.
--
-- A call of the database, of the object storage or of another service that may fail is an input of
-- the model: its outcome, and a failed call of the database changes nothing. The loop of the poller
-- runs over a list of turns, of which there are to be more than attempts left over the whole table.
-- Instants and durations are in nanoseconds. The loop of DispatchOCRJob has the three attempts that
-- New sets.
--
-- A row of the aggregate takes its identifier from a supply; rows that compare alike in an ORDER BY
-- keep the order of the table, which Postgres does not promise.
--
-- A run of a command is the list of its events with its result; what the libraries and the outside
-- answer in it is an argument. The object storage, http.ServeMux and the handlers of the loggers
-- are parameters, records of their calls, with what their documentation says as laws where a
-- theorem needs it.
--
-- Not modelled: the libraries (pgx, goose, net/http, slog, OpenTelemetry, the client of Google
-- Cloud Storage, poppler), the embedding of the SQL files, and the timeouts of contexts but for the
-- deadline of a job. A draining poller is modelled without other writers between its turns, while
-- Store.Machine allows any, and between the calls of the ingest service and of the janitor others
-- may issue any statement on the documents. Goroutines that a main function starts and does not
-- wait for (the poller, the jobs of the OCR worker) are not part of its run, but for a panic of the
-- ticker of the poller.
pub mod Base
pub mod Text
pub mod Queries
pub mod Dto
pub mod Dates
pub mod TaxId
pub mod Normalize
pub mod Failure
pub mod Schema
pub mod Llm
pub mod Store
pub mod Extraction
pub mod OcrClient
pub mod OcrWorker
pub mod OcrEngine
pub mod Ingest
pub mod Aggregate
pub mod Matriculas
pub mod Handlers
pub mod Storage
pub mod Command
pub mod Web
pub mod Routes
pub mod Logger
pub mod Pipeline
pub mod Config
pub mod Samples
