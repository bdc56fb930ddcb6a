-- ===== src/Lib.antt =====
-- The GenXTaxi AI services: a chatbot that books, cancels and refunds rides through tools, the
-- gateway to the language models, the insights from reviews, currencies, and the money arithmetic
-- that they share. Paths are from the repository's root.
--
-- The parts, and the files that model them:
-- - Money, Money/: packages/ai-shared/src/money. MoneyOps with of, sameCurrency, add, multiply,
--   roundMinor and convert. A number of JavaScript is a fraction, an infinity or NaN; `fl` rounds a
--   fraction to a double and is a parameter, with the facts on doubles that are relied on as
--   `IsDouble`.
-- - Json, MoneyScan, MoneyScan/: chat-orchestrator/src/tools/money-scan.ts. scanMoney collects the
--   amounts that a tool's result states.
-- - Grounding, Grounding/: chat-orchestrator/src/orchestrator/grounding.service.ts. check blocks a
--   reply that states an amount which no tool returned; Grounding/Find is its regular expression.
-- - AppError: packages/ai-shared/src/errors and the status codes of common/all-exceptions.filter.ts.
-- - Ports, Ports/Memory: collections of MongoDB, values with an expiry and counters in Redis, as
--   interfaces with the documented behaviour that is relied on, and services in memory that meet them.
-- - Cards: the replacement of card numbers in getPaymentHistory.
-- - Chat/Types, Chat/Registry, Chat/World: the data of chat-orchestrator, its tool registry, and the
--   state of a request with the clients of src/gateway-client. The model, the backend, the clock and
--   JavaScript's conversions are a parameter, `Backends`; `sent` logs the calls of the backend.
-- - Chat/Guard, Chat/Tools, Chat/Coords: ToolExecutorService.execute with assertAllowed and the eight tools.
-- - Chat/Sessions: SessionsService and EscalationService.
-- - Chat/Actions: ConfirmationStore, ToolExecutorService.commit and commitRefund, and confirm.
-- - Chat/Replies: the texts of OrchestratorService, and tokenize.
-- - Chat/Turn: OrchestratorService.processMessage and degrade. It stores the user's message, asks the
--   knowledge base, and loops over hops; a hop runs the tool calls of a completion, which may put an
--   action into the store of Chat/Actions, or checks the reply by Grounding and streams it.
-- - Chat/Http: the controllers of chat and admin, the roles guard, the token and the error envelope.
-- - Gateway, Gateway/Laws: ai-gateway's token budget, the map from tasks to models, and the fallback
--   chain.
-- - Gateway/Calls, Gateway/Pipeline: ai-gateway/src/ai/ai.service.ts and what its calls are made of.
--   complete and embed put the budget, the redaction, the chain, the price, the log and the metrics of
--   a call together.
-- - Gateway/Prompts: PromptsService, with createDraft, publish, resolvePublished, render and preview.
-- - Gateway/Chunker, Gateway/Knowledge: ChunkerService.chunk, RagService, whose search is in
--   Gateway/Knowledge/Retrieval, and VectorSearchService.
-- - Gateway/Costs: CostService, with its percentiles.
-- - Gateway/Providers, Gateway/Embeddings: GroqProvider and AnthropicProvider, LocalEmbeddingProvider
--   and the choice of EmbeddingRouterService.
-- - Currency, Currency/: currency-service's currencies, rates, conversion and normalisation.
-- - Insights: insights-service. Insights/Source is MongoReviewSource.pullSince, Insights/Filter
--   ContentFilterService, Insights/Ingest IngestService, Insights/Aspects AspectExtractionService,
--   Insights/Summaries SummarizerService, Insights/Clusters and Insights/Zones the clustering and
--   ZoneAggregationService, Insights/Serving ServingService, Insights/Client AiGatewayClient.
--   Insights/Scheduler is SchedulerService: a cycle is a sequence of calls, each a step that ticks may
--   come between, and Insights/Scheduler/Services gives it the other services as what it calls.
--
-- The chunker's loop runs on fuel, as much as its buffer is long, of which each round takes at least
-- 402 units; all other loops are structural.
--
-- The loop of a turn recurses on the hops that are left, which the code bounds by MAX_TOOL_HOPS, so
-- there is no fuel there. Strings that the code looks into are lists of their units; a call of a
-- database does not fail, but for the look-up of a session by a malformed identifier.
--
-- Not modelled: Intl.NumberFormat, modules and configuration, the framing of streamed events, the
-- text of the system prompt, the vendors' SDKs and HTTP calls, and the Python service. The
-- patterns of personal data, toLowerCase, the calendar and MD5 are parameters.
pub mod Common
pub mod Money
pub mod Json
pub mod MoneyScan
pub mod Grounding
pub mod Ports
pub mod AppError
pub mod Cards
pub mod Chat
pub mod Gateway
pub mod Currency
pub mod Insights
