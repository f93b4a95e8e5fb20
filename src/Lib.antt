-- ===== src/Lib.antt =====
-- A model of api-wa-automation, the NestJS server that automates WhatsApp through OpenWA servers,
-- and the properties that make it correct. Paths below are from the root of the repository.
--
-- A workspace has members in roles, sessions (WhatsApp numbers that an OpenWA server drives),
-- contacts, broadcasts and automations. Every service method starts with the access checks of the
-- workspaces service; what sends a message goes through a queue whose processor reads the workspace's
-- credentials, calls the OpenWA client, writes a log and emits to the gateway.
--
-- Value: JSON and JavaScript values, and the parts of the runtime that the code calls (`Js`).
-- Orm: the repositories of TypeORM, as an interface with laws (`Orm`) and an instance over lists.
-- Data: the entities and the jobs, one record for each (src/modules/*/entities, src/queue/jobs).
-- World: the state that the services share (tables, queues, emitted events, requests made of OpenWA
--   servers) and the monad of service methods: a result or an exception, and the state left.
-- Encryption: src/common/helpers/encryption.helper.ts. Template: template.helper.ts beside it.
-- Users: src/modules/users/users.service.ts; Passwords is about it.
-- Auth: src/modules/auth: the service, the strategies and src/common/guards/jwt.guard.ts, with the
--   cache of refresh tokens; Tokens and Rotation are about them.
-- Workspaces: src/modules/workspaces/workspaces.service.ts; Access and Owners are about it.
-- Openwa: src/openwa/openwa.service.ts; Bounds is about it.
-- Gateway: src/modules/sessions/sessions.gateway.ts, its emits and, in Rooms, the rooms of its
--   clients; Listening is about them.
-- Sessions: src/modules/sessions/sessions.service.ts; Status is about it.
-- Contacts: src/modules/contacts: the service, Csv the parser (csv.util.ts), Controller the
--   endpoints that write, Unscoped what they do for a request that names no workspace; Table,
--   Upsert, Import and Tenants are about them.
-- Messages: src/modules/messages: the service and the processor; Delivery is about them.
-- Broadcasts: src/modules/broadcasts: the service, and Processor the job's loop, in which two
--   parameters say what other requests do to the state while the job waits; Recipients,
--   Transitions, Machine, Requests, Rounds, Sending and Runs are about them.
-- Automations: src/modules/automations: Trigger, Condition and Actions are the engines
--   (engine/*.ts), Service is automations.service.ts, Processor the queue's worker
--   (automation.processor.ts), Inbound the callbacks (inbound.controller.ts) and Scheduler the
--   minute's tick (automation.scheduler.ts). Matching, Branching, Sorting, Bounds, Runs, Ending,
--   Dispatch, Counting, Keeping, Choosing, Processing, Reception, Hooks and Schedules are about
--   them.
-- Webhooks: src/modules/webhooks: the service and an attempt of the processor, with the receiver,
--   the HMAC and `JSON.stringify` as a parameter; Subscriptions and Deliveries are about them.
-- ApiKeys: src/modules/api-keys/api-keys.service.ts; Validity is about it.
-- Analytics: src/modules/analytics/analytics.service.ts, the statistics of automations, sessions
--   and broadcasts; Counts is about them.
-- Controller, under a service's module, holds its endpoints (*.controller.ts). Api puts them behind the
--   guard of tokens, by one type of requests; Access and Roles are about them. Accounts takes the
--   requests of users, tokens and workspaces as steps between states; Integrity, UserWrites,
--   WorkspaceWrites, Steps and Orphans are about them.
-- Guards: src/common/guards/api-key.guard.ts and src/common/decorators/workspace.decorator.ts;
--   Header is about requests that name no workspace.
-- Tests: instances of the interfaces and a small state, at which the theorems are applied.
--
-- A method keeps its name, in snake case, and takes its arguments in the order of the source behind
-- those that stand for the clock, random bytes and the key of the encryption. A method that returns
-- `{ message }` returns the unit.
--
-- Primary keys are numbers; the database makes a new one. Times are milliseconds. Texts are lists of
-- UTF-16 code units. The run of an automation's actions is bounded in the source, by four steps for an
-- action and ten more: the recursion is on the same number. No other function needs fuel.
--
-- Parameters: TypeORM (`Orm`), Node's crypto (`Crypto`), bcrypt (`Bcrypt`), the JavaScript runtime
-- (`Js`), the OpenWA server (`Server`), the receiver of webhooks (`Receiver`), signed tokens
-- (`Jwt`), the cache (`Cache`), cron-parser (`Cron`), groups of rows (`Grouping`), socket.io
-- (`Sockets`), TypeORM's reading of an undefined property (`FindOptions`), the texts of keys
-- (`Uuid`), the clock and random bytes.
-- Not modelled: the retries of the queues, the analytics by day, reads by page and of logs, the
-- envelope of replies, logging, pauses, and the wiring of the framework. The waits for the database
-- count as no time. The JSON columns of automations hold the properties that the code reads, of the
-- types that it expects. The limits of length of columns are modelled for the contacts and the logs
-- of messages, whose texts can come unchecked, and of no other table. The endpoints take the
-- workspace that the header names: what a request without the header does is modelled for the
-- contacts (Contacts.Unscoped) and the list of sessions (Guards.Header).
pub mod Base
pub mod Value
pub mod Orm
pub mod Data
pub mod World
pub mod Encryption
pub mod Template
pub mod Users
pub mod Auth
pub mod Api
pub mod Guards
pub mod Accounts
pub mod Analytics
pub mod Workspaces
pub mod Openwa
pub mod Gateway
pub mod Sessions
pub mod Contacts
pub mod Messages
pub mod Broadcasts
pub mod Automations
pub mod Webhooks
pub mod ApiKeys
pub mod Tests
