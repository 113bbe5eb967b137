-- ===== src/Lib.antt =====
-- The core of go-core, the Go service behind a LINE bot that keeps household and business books
-- for Thai users: what its packages under go-core/internal compute, what they write to PostgreSQL,
-- and the theorems that make this right.
--
-- The parts and how they interact. A message from LINE passes the rate limiter
-- (internal/line/ratelimit.go) and comes to the chat dispatcher (internal/dispatcher). It keeps the
-- conversation, the question that is still open, and images and slips in the memory
-- (internal/memory, MongoDB), reads the text with the parser (internal/parser), and answers once,
-- from the ledger (internal/ledger, PostgreSQL), a picture, or a language model. The ledger is also
-- called by the LIFF pages under a signed session (internal/liff/session.go). It writes
-- transactions, a double-entry journal, allocations to projects and an event log, in one database
-- transaction per call. Events that it appends with an outbox row are published to NATS by the relay
-- (internal/events/outbox_relay.go), whose subject carries the namespace that the consumer
-- (internal/events/consumer.go) reads back.
--
-- Files:
--   Base    texts (packages strings and regexp of Go), signed integers, lists; no code of the
--           repository
--   Sql     a pool and one open transaction of pgx: actions on a `World`, statements that may fail,
--           and rules for what an action preserves (Quiet, Triple, Pooled,
--           Leaves)
--   Ledger  internal/ledger: Tables (the rows), Accounts and Journal (writer.go), Allocations
--           (projects.go), Events (events.go), Writer (CreatePersonalTransaction), Update
--           (UpdateTransaction, DeleteTransaction), Business (business.go,
--           business_management.go), Household (household_summary.go), Projects (projects.go),
--           Check (fetchLedgerCheck of dashboard.go), Resolve (ResolveProjectAllocations), Reader
--           (FetchUserRange, FetchUserTotals), Summary and Money (summary.go); Atomic, Books,
--           Tenants and Reads hold proofs
--   Thaitime  internal/thaitime: the texts of times
--   Websearch  internal/websearch: ShouldSearch
--   Memory  internal/memory: Store (models.go), and of service.go Pending (the open question), Log
--           (messages, snapshots, event logs), Sessions (sessions, profiles), Images (images,
--           slips), Context (GetContext), Compact (CompactConversationIfNeeded)
--   Dispatcher  internal/dispatcher/dispatcher.go: Phrases (the tests on a text), Answers (its
--           texts), Chat (what a handler works on), Replies, Allocate, Pending, Household, Business,
--           Prompt, Image, Recall (the last image), Talk, Text and Event (Dispatch); Does, Silent,
--           Handled, Sound, Isolated and Unwritten hold proofs
--   Events  internal/events: Subject (buildSubject, namespaceOf), Relay (the outbox relay)
--   Line    internal/line: RateLimit (ratelimit.go)
--   Liff    internal/liff: Session (session.go)
--   Media   internal/media: the signed links (media.go)
--   Parser  internal/parser: Patterns, Counterparty, Amount (number words) and Parse of
--           transaction.go, Repr (pythonReprToJSON of vision.go)
--
-- A Go function `CreatePersonalTransaction` is the definition `create_personal_transaction`, and so
-- for the others; a handler behind `pool.Begin` is an action of its own (`record_transaction`,
-- `revise`, `remove`, `record_business`). A query is a function of the tables, with the unique
-- indexes and CHECKs of go-core/migrations where the code meets them. A regular expression is a
-- function on texts, with the first match that Go's regexp finds. A handler of the dispatcher is an
-- action on a `Chat`: the two databases, the replies that LINE accepted, the jobs queued.
--
-- Numbers: money is an integer of satang (0.01 baht), a percentage an integer of 0.0001 percent, a
-- confidence an integer of hundredths, a time a number of the clock with 0 for Go's zero time. The
-- rounding of float64 is not modelled: the amounts are exact. Loops are recursion on the list or text
-- they go over, but for the tokens of a number (Parser.Amount), which run on fuel: the length of the
-- text, which is enough as every token takes a letter off it; the seven groups of three digits that
-- an int64 has (Ledger.Money); and the 309 digits that a float64 has (Dispatcher.Phrases). The int of
-- a number is kept modulo 2 ^ 64.
--
-- What is a parameter: which statements the server fails (`faults`), the ids it draws (`uuid`), the
-- clock; the order in which a compaction finds messages with the same time (`tie`); the answers of NATS
-- and of the store (`publish`, `writable`); Redis (`Redis`); HMAC, base64 and JSON (`Codec`); HMAC,
-- strconv, the image store and the escapes of URLs (`Lib`); Go's calendar in the zone of Bangkok
-- (`Calendar`); the collaborators of the dispatcher (`Service`): the model, the
-- vision model, LINE's content, the object store, the web search, the pages of the brain, the codec
-- of LIFF tokens and the libraries behind image links; the LINE user's account, and which replies
-- LINE and which jobs the queue refuses.
--
-- Not modelled: other sessions between the statements of a call; a COMMIT that the server did and
-- whose answer was lost: one that fails is taken to have changed nothing; foreign keys and the
-- overflow of NUMERIC, but as faults; the ORDER BY of the lists; arguments inside error messages;
-- cache invalidation and logging after a commit; letters with case beyond ASCII in ToUpper. In the
-- dispatcher, the deadlines of operationContext, where a call outside is only told to have timed
-- out, the reason of a failed web search, and the audit log of the memory. Of the memory, the
-- facts, the wiki pages and the lists for the LIFF pages. The brain, the agent gateway, the queue's
-- server and the HTTP handlers are prompts, calls of libraries and glue, and are left out, as is the
-- former TypeScript service.
pub mod Base
pub mod Dispatcher
pub mod Events
pub mod Ledger
pub mod Liff
pub mod Line
pub mod Media
pub mod Memory
pub mod Parser
pub mod Sql
pub mod Thaitime
pub mod Websearch
