-- ===== src/Lib.antt =====
-- A model of munichat (Elyzian), an internal chat: a NestJS API with socket events (apps/api), the
-- types and schemas that both sides share (packages/shared), the web client (apps/web) and an
-- installer (apps/enterprise-installer), with the theorems that make its core correct.
--
-- How the parts interact. A client's socket event reaches a handler of the gateway
-- (apps/api/src/chat/chat.gateway.ts), which checks the body against a schema of packages/shared,
-- asks the channels service for membership, lets the message service write the row, and emits the
-- new state of the message to the room of its channel. Behind a message stand the GLPI client
-- (`/ticket` messages), the queue of link previews and the object storage. The web client merges what
-- it receives into its query cache and its store, and its PDF viewer decodes attachments by itself.
-- A login asks the directory, moves the person between the channels of departments and issues tokens.
-- Webhooks of GLPI and of the RMM server, and the jobs of the preview queue, change what is attached
-- to a message and broadcast it again.
--
-- Which file models what:
--   Prelude, Text     lists and options on native numbers; strings as lists of UTF-16 code units
--   Shared            packages/shared/src: enumerations, transfer objects, request schemas
--   Store             the rows of apps/api/prisma/schema.prisma; the database client as a record of
--                     operations with documented laws (Store/Client, Store/Table for histories) and
--                     a database in memory that fulfils them (Store/Memory)
--   Server            the state around a handler: database, emissions in order, queued jobs, GLPI
--                     requests and answers, the cached session token, the clock; a handler is an
--                     Action, a state-passing function whose result is ok or a rejection
--   Glpi              apps/api/src/glpi: glpi.service.ts, glpi.session.ts, glpi.status.ts
--   Messages          apps/api/src/messages: messages.service.ts (Service, Patterns, History, Search)
--                     with the handlers of its controllers (Search), and message-response.mapper.ts
--                     (Mapper)
--   Channels          apps/api/src/channels/channels.service.ts
--   Chat              the handlers of chat.gateway.ts (Gateway), sequences of events (Events)
--   Presence          chat/presence.service.ts, redis/redis.service.ts and the handlers of
--                     connections, with a relation of reachable states (Connections)
--   LinkPreview       apps/api/src/link-preview: the SSRF guard and the guarded fetch
--   Files             apps/api/src/files: byte ranges, uploads, downloads
--   Directory         apps/api/src/auth/ldap.service.ts (Names, Lookup) and channel-sync.service.ts
--                     (Slugs, ChannelSync)
--   Auth              apps/api/src/auth/auth.service.ts (Login; refresh, rotation and logout in
--                     Service), access-token.validator.ts and chat/chat-auth.service.ts
--   Rmm               rmm/rmm.service.ts, rmm/rmm.controller.ts and audit/audit.service.ts
--   Webhooks          rmm/rmm-webhook.controller.ts (RmmAlerts), glpi/glpi-webhook.controller.ts
--                     (GlpiTickets) and link-preview/link-preview.processor.ts with its parser
--                     (Previews), over further tables of the database (Tables)
--   Installer         apps/enterprise-installer/src/lib/config.ts
--   Web               apps/web/src/lib, stores and hooks: caches, typing, grouping, notifications
--   Pdf               apps/web/src/lib/pdf: lexer.ts (Lexer), parser.ts and types.ts (Parser), and of
--                     filters.ts the chain (Filters) and each filter; encodings.ts (Encodings)
--
-- Names follow the source: handleMessageSend is handle_message_send, and so on. Code outside the
-- repository is a parameter: the database client, Redis, the platform's URL, DNS and fetch, base64 and
-- dates of cursors (Codec), the sizes the object storage reports, the directory client, the HMAC and
-- the buffers of Node, cheerio, the NFD normalisation. A rejected write of the database, and a
-- rejected history or search query, is a result of its own, and what was written before it stays
-- written; the other reads of the database are taken to succeed.
--
-- Bounds and fuel. The fetch loop runs on the number of hops that the source permits (three
-- redirections, four requests). The client's scroll through a history runs on one step more than the
-- channel has messages, which its theorem shows to be enough. The PDF lexer and parser run on one step
-- more than there are bytes, and theorems show that to be enough. All other loops are structural.
-- Numbers of the source are whole and below 2^53 where the model uses them; the 32-bit arithmetic of
-- the guard is written out.
--
-- Not modelled: the check of JSON shapes by zod (a body that fails it is none), the code of
-- libraries, the full-text match inside the SQL of the search, rejected reads of the database by
-- identifier, a connection whose channels cannot be listed or joined, rendering and the user interface.
-- A handler runs as one step: interleavings inside a handler are not part of the sequences of events.
pub mod Prelude
pub mod Text
pub mod Shared
pub mod Store
pub mod Server
pub mod Glpi
pub mod Messages
pub mod Channels
pub mod Chat
pub mod LinkPreview
pub mod Files
pub mod Presence
pub mod Auth
pub mod Web
pub mod Webhooks
pub mod Directory
pub mod Installer
pub mod Rmm
pub mod Pdf
