-- ===== src/Lib.antt =====
-- Models of the property search bot and what they show.
--
-- The bot watches searches of the portal Zonaprop. A user registers searches in a Telegram chat; a
-- validator checks each new search; a cycle of a user fetches the user's valid searches, stores their
-- listings, ranks the ones that the user has not seen and sends them as cards; the buttons of a card
-- rate its listing, and the ratings train the model that ranks. Postgres holds all state but the
-- poller's map of manual runs, and the parts meet only in it.
--
-- The files, and the code that each models:
--   Prelude        Go's strings, strconv and sort, as far as the program calls them
--   Model          internal/model: Listing, Snapshot, Delivery, Contact
--   Store          internal/db/migrations as row types (Tables); methods as actions that read and write
--                  the database, call Telegram, return or fail (Actions); rules for invariants (Invariants), for what they return (Ensures), for actions that
--                  send nothing (Silent)
--   Repo           internal/repo, a module for each table's methods. A statement is a function of the
--                  database (insert_search, take_lease), the method an action around it
--                  (add_search_url_checked, acquire_poll_lease)
--   Parser         internal/parser: amounts and prices (Amount), operation, partido and links (Place), the
--                  cards of a page (Page)
--   SearchUrl      internal/searchurl
--   Score          internal/score: Extract (Features), Weights (Model), Retrain, Load and Agreement
--                  (Retrain), the texts of /model (Summary)
--   Fetch          internal/fetch: the gate, the classification of failures, FetchWith (Client), its
--                  delays (Backoff), the exchanges over FlareSolverr and TLS (Transport),
--                  requests at the gate at once (Turns)
--   Telegram       internal/telegram and the labels of internal/model/model.go: UTF-16 lengths, the
--                  caption, post and Notify, do with the envelope that it decodes (Response), the requests as
--                  URL and form (Requests)
--   Outside        what handlers take from net/url, Unicode, float64 and the portal, as parameters
--   Digest         internal/digest: RunForUser (Runner), cycles that overlap, with the lock of a user
--                  (Overlapping), RunAll and RunDaily (Daily)
--   Validate       internal/validate
--   Contact        internal/contact
--   Config         internal/config: Load and the readers of single variables, seedURLs (Seeds)
--   Database       internal/db: Open, Migrate over any server, Seed
--   Redact         internal/httpx: Redact
--   Scheduler      internal/scheduler: NextRun and the loop of Run
--   Chat           internal/chat: updates, onboarding, presses, /buscar, commands, Poller.Run
--   Bot            cmd/bot/main.go: main from the configuration up to the scheduler (Main), and
--                  its jobs
--   Tests          sample data, and each theorem with hypotheses at concrete values
--
-- Choices of the models:
--   - An action takes a world, with the database, the log of what reached Telegram, and an environment
--     that decides for each call, by the number of the calls before it, whether it fails, whether the
--     context is cancelled and what the clock shows. A call that fails has not been applied. A
--     transaction that fails restores the database. A transaction is one step there, except in
--     Repo.Searches.Concurrent, where the statements of several calls interleave and the row lock of
--     FOR UPDATE is a premise of the step that takes it. A sequence behind a key has no gaps.
--   - A text is the list of its code points. Lengths and positions count code points where the code
--     counts bytes, except for the length of a response body, which is a field of it.
--   - Instants are natural numbers of nanoseconds, dates are days. Where the code subtracts instants,
--     the comments say what an earlier one gives.
--   - The ids of users, chats and updates are natural numbers. The id of a group is negative in the
--     code; a group is only answered that the bot works in private chats.
--   - A float64 is its bit pattern, and arithmetic on it an interface (Score.Floats).
--   - net/url, net, goquery, encoding/json, slog, time.LoadLocation, time.ParseDuration,
--     strconv.ParseBool and strconv.ParseFloat are interfaces or given data. Regular
--     expressions are matchers by clauses.
--   - itoa runs on fuel: n + 1 rounds are enough for n, since each divides by ten. The other loops
--     recurse on their data; polls and API answers are given as lists, whose end is a state of its own.
--     The retried connection runs on fuel: its waits take half a second each, so that the timeout
--     divided by that, and two rounds more, are enough.
--   - Configured numbers and durations are 64-bit integers as signed numbers; the delay between
--     attempts keeps its wrap-around modulo 2 ^ 64.
--   - The goroutines that index the searches of a cycle run one after another, a detached look-up or
--     run takes place at the end of its handler, and a handler under a user's lock is one step; cycles
--     interleave statement by statement in Digest.Overlapping, where the lock of a user is a premise.
--
-- Not modelled: the clients of net/http and of the TLS library, whose exchanges are given; the
-- multipart encoding of a photo; internal/logging and the transport of internal/httpx, which only set
-- up the standard library; what the SQL of a migration does to a schema; the signals of cmd/bot and the
-- interleaving of its goroutines; cmd/probe, a tool for trying a URL; the helper of the tests.
pub mod Prelude
pub mod Redact
pub mod Model
pub mod Store
pub mod Repo
pub mod Parser
pub mod Score
pub mod SearchUrl
pub mod Fetch
pub mod Telegram
pub mod Outside
pub mod Digest
pub mod Validate
pub mod Config
pub mod Contact
pub mod Scheduler
pub mod Database
pub mod Chat
pub mod Bot
pub mod Tests
