-- ===== src/Lib.antt =====
-- Parts of the finance application's backend: accounts and their sessions, who may follow, message
-- and report whom, the store of portfolios, the ranked index of a portfolio, and competitions; with
-- the cache and the pair lock that they share.
--
-- The parts, under backend/internal, and the files that model them:
--   * profile/validation.go (public handles): Profile/Handle; the generated handles in
--     Profile/HandleLaws.
--   * safety (blocks and the interaction gate): memory_repository.go is Safety/Store, service.go is
--     Safety/Methods, the types are Safety/Defs. Safety/Keys says what the store's operations do to
--     `is_blocked`, Safety/Effects what each call writes, Safety/Blocking and Safety/Gate what they
--     mean.
--   * social (follows, friends, conversations, messages): memory_repository.go is Social/Follows
--     and Social/Messages (Conversations, Posting, Reading), service.go is Social/Methods
--     (follows), Social/Messaging and Social/Participation, the error table of handler.go is
--     Social/Http, the types are Social/Defs. The laws are in Social/Rates (the abuse policy) and
--     Social/Laws.
--   * moderation (reports, their resolution, notifications): memory_repository.go is
--     Moderation/Store and Moderation/Inbox, service.go is Moderation/Methods and
--     Moderation/Resolving, model.go is Moderation/Defs with Category, Status and Action. The laws
--     are in Moderation/Laws, over runs of calls (Moderation/Run).
--   * cmd/api/main.go gives safety and social to one another: Separation/System has the two stores
--     with their calls as steps, Separation/Preserve what one write keeps, Separation/Invariant the
--     invariant of runs, Separation/Refusal what a blocked user is told.
--   * auth (accounts, sessions, one-time tokens, email): model.go and errors.go are Auth/Defs,
--     repository.go is Auth/Repository (Accounts, Tokens, Outbox; its calls as steps in Run),
--     service.go, jwt.go and email_outbox.go are Auth/Service (Registration, Login, Passwords), and
--     middleware.go is Auth/Middleware. The laws are in Auth/Laws: Sessions on versions of an
--     account and Ages on time, Indexes on the tables of accounts, SingleUse on tokens, Held,
--     Leases and Delivery on the email outbox, Signing, Apple and Verifying on the ways of signing
--     in. Hashes and signatures are records of operations; a token that was signed is read back as
--     it was, and a password verifies against its own hash.
--   * portfolio/memory_store.go (transactions on one portfolio, and the outbox of events): the
--     types of model.go and store.go with the repository of repository.go are Portfolio/Defs, the
--     methods of a transaction Portfolio/Transaction, `WithLockedPortfolio` with `commit` and the
--     reads Portfolio/Store, claims and retries Portfolio/Outbox. The laws are in Portfolio/Laws:
--     Transactions on one transaction, Runs on many, Versions on the ranked state, Attempts and
--     Retries on the outbox. The body of a transaction is any function; where a law needs one that
--     writes by the transaction's methods only, `Writes` says so.
--   * ttlcache: TtlCache, and TtlCache/Replay against the last write of each key.
--   * pairlock: PairLock has the steps of its threads, PairLock/Exclusion what they keep.
--   * performance (the ranked index): calculator.go is Performance/Calculator, model.go and the
--     decimal operations of money/types.go are Performance/Defs; Performance/Neutral and
--     Performance/Chain are about mutations, Performance/Valid about valid states. The package
--     shopspring/decimal is a record of operations, with its documented laws.
--   * competitions (the statuses of an edition): lifecycle.go is Competitions/Lifecycle; the writes
--     of editions in engine_repository.go, repository.go and finalize.go are Competitions/Editions.
--     Competitions/Moves has runs of them, where a promotion of final results is its check and its
--     write with other calls in between; Ranks and History are about how statuses change.
--   * competitions/ranking.go (the ranking of an edition): Competitions/Ranking has its
--     generations, Competitions/Ranking/Promotion the promotion and the reads; Served, Kept and
--     Visible are about runs of the workers' calls.
--   * competitions/rules (who may enter): schema.go is Competitions/Rules/Defs, evaluate.go
--     Competitions/Rules/Evaluate, with its laws in Competitions/Rules/Outcome.
-- Base has what they share: Boolean tests, lists, texts, association lists, results, ids. Errors
-- has the packages' error values.
--
-- How the code is modelled. A Go function keeps its name, in snake case. A method that changes a
-- repository takes it last and returns it, after the error or the result; the repository is a
-- record of the fields of `InMemoryRepository`. A Go map is an association list; where Go ranges
-- over a map in no fixed order, the model goes through the list in its order. A mutex held for a
-- whole method makes the method one function; `Follow` and `Block` of one pair exclude one another
-- by internal/pairlock, so a call of either is one step there. Where a service method reads before
-- its critical section, as `SendMessage` and `ResolveReport` do, the model takes its reads and its
-- writes at one moment. A nil pointer or interface is `none`. Times are nanoseconds on ℕ. Fresh
-- uuids and the time are arguments. Text is a list of code points. Other components (profiles,
-- account status, accounts, notifier, message access) are records of functions with a state of
-- their own. Loops are structural recursion; only `itoa` counts on fuel: 20 digits hold every
-- 64-bit number.
--
-- Not modelled: the PostgreSQL repositories (SQL run by the database), HTTP handlers but for the
-- status table, the coordinator and the service of portfolio with its archives, reconciliation of
-- instruments and deletion of accounts, the workers of competitions that value and finalise with
-- their results, and the other packages. `strings.ToLower` is written out for ASCII and Latin-1 and
-- leaves other code points as they are: handles keep none of them, and message bodies are only
-- compared after it, by the limit on repeated bodies. `sort.Slice` is an insertion sort, which
-- fixes the order of equal times.
pub mod Base
pub mod Errors
pub mod Auth
pub mod Portfolio
pub mod Profile
pub mod Safety
pub mod Social
pub mod Moderation
pub mod Performance
pub mod Competitions
pub mod Separation
pub mod TtlCache
pub mod PairLock
