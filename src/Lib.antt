-- ===== src/Lib.antt =====
-- The verification library of Social Monitor, the API server of apps/api and the web application
-- of apps/web.
--
-- The program collects messages of monitored X users and Telegram chats and forwards them. The
-- message service (apps/api/src/messages) stores a message once, announces it on the event bus,
-- makes a notification task for each enabled channel, and puts a job for each new task on the
-- queue of the channel's type (apps/api/src/queue). The queue's worker runs the notification
-- service's `processTask` (apps/api/src/notifications) for every attempt of a job; it sends over
-- the channel's provider, which the factory knows by type, and writes SENT or FAILED. The QQ
-- provider uses the QQ client (apps/api/src/qq), whose gateway keeps the bot online. Monitors
-- (apps/api/src/monitors) are the targets that messages belong to. The Telegram accounts
-- (apps/api/src/telegram) are logged in, connected and disconnected by a worker that is called
-- over HTTP; their sessions are stored encrypted. Tokens (apps/api/src/auth) guard the API.
--
-- Files, with the code that they are about:
--   Core           exceptions, results, actions on a state; packages/shared/src/index.ts and
--                  common/prisma.util.ts
--   Schema         prisma/schema.prisma: the enums and the rows
--   Database       the database client, a parameter `Prisma D` over a state `D`, with its queries
--   Net            `fetch` and the clock, a parameter `Network N`; the requests made are kept
--   World          the state that services share: database, network, queues, and events/sse.service.ts
--   Format         notifications/message-format.ts, over UTF-16 code units
--   Qq.Client      qq/qq-client.service.ts
--   Qq.Gateway     qq/qq-gateway.service.ts as a state machine; `Steps` has its events and its runs
--   Queue          queue/notification-queue.service.ts
--   Providers      notifications/providers and notifications/notification-provider.factory.ts
--   Notifications  notifications/notification.service.ts: `Process` has the task runner and
--                  queue/notification-worker.service.ts, `Channels` the channels, `Listing` the tasks
--   Paging         the pages that the list endpoints ask for
--   Messages       messages/message.service.ts: `Create`, `Queries`; their `Dto` and `Repository`
--   Monitors       monitors/monitor.service.ts: `Normalize` has the checks, `Service` the operations,
--                  and `Service.Spec` the table that they stand for
--   Telegram       apps/api/src/telegram: `Mapper` and `Ingest` the messages that the worker posts;
--                  `Sidecar` telegram-client-manager.service.ts; `Accounts` the repository; `Listener`,
--                  `Login` (telegram-auth.service.ts) and `Service` (telegram.service.ts)
--   Health         health/health.service.ts
--   Dashboard      dashboard/dashboard.service.ts and its repository
--   Web            apps/web: `Client` lib/api/client.ts and lib/auth.ts; `Feed`
--                  app/dashboard/latest-messages.tsx; `Login` and `Bots` the sections
--                  of app/settings/page.tsx; `Messages`, `Monitors` and `Notifications` the pages
--                  of these names; `SignIn` app/login/page.tsx
--   Splitting      `split` at a separator
--   Auth           auth/auth.service.ts and auth/auth.guard.ts
--   Encryption     crypto/encryption.service.ts
--   Prelude        lists, texts and numbers; Fixtures has the surroundings that the tests run in
-- Paths are those of apps/api/src where no other is named. A method `fooBar` of the code is
-- `foo_bar` here. An asynchronous method is an `Action`: it takes a state, and gives a value or an
-- exception with the state it leaves. Calls that the code makes at once with `Promise.all` are
-- made in order, which for the reads that they are is the same.
--
-- The database client, the network, the queue library, the cipher and the encodings of the tokens
-- are parameters; a theorem that relies on one takes a record of laws (MessageLaws, TaskLaws,
-- TargetLaws, ViewLaws, ListLaws, TaskListLaws, CountLaws, AccountLaws, TokenLaws,
-- CipherLaws), and each such record has an instance among the tests. `Messages.Create.create`
-- takes a function `others`, what other clients of the database commit between its look-up and its
-- insert. Nothing runs on fuel: all loops are over lists.
--
-- A number of the code is a ℕ; times are milliseconds, and no operation that the models use takes
-- one below zero (a page is at least one, as the validation has it) or beyond the doubles' range
-- of exact integers. Texts are lists of code units. JSON objects are members with scalar values,
-- or with the text of an array or an object; a member of an unexpected type counts as absent.
--
-- A handler of a page of apps/web is cut at its awaits: one function for what it does when it is
-- called, one for each answer, and the runs of a page are an indexed data type whose constructors
-- are the user's inputs and the answers, in any order.
--
-- Where the source is given JSON that its types do not allow, the models are simpler: a `null` for a
-- member of an update counts as absent, though the source writes it; a member of a channel's
-- configuration that is no string counts as absent, though the source accepts any that is truthy;
-- and a `null` as the payload of a token or the body of a worker's answer has no members, where the
-- source throws a TypeError. The cipher is given a key of 32 bytes, as 64 hexadecimal digits make
-- one. How the authentication reads its configuration is left out.
--
-- Not modelled: logging; controllers, dependency injection and the validation decorators; of the
-- web application the markup, the dashboard page and the page of one message; the Telegram worker
-- and the deployment files.
pub mod Prelude
pub mod Core
pub mod Schema
pub mod Format
pub mod Net
mod Fixtures
pub mod Qq
pub mod Database
pub mod World
pub mod Queue
pub mod Providers
pub mod Notifications
pub mod Paging
pub mod Messages
pub mod Monitors
pub mod Splitting
pub mod Auth
pub mod Encryption
pub mod Telegram
pub mod Health
pub mod Dashboard
pub mod Web
