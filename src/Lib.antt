-- ===== src/Lib.antt =====
-- better-telegram-mcp: a server that gives a language model the tools of a Telegram account, over
-- the Bot API or as a user over MTProto.
--
-- How the program is put together. internal/server receives a call of a tool and hands it to
-- internal/tools, which checks the arguments and calls a backend, the interface of
-- internal/telegram/backend.go. internal/telegram has two backends: the bot's (bot*.go) and the
-- user's (user*.go). internal/aliases, internal/security and internal/config serve all of them.
--
-- What models what:
--   Base        what Go's own packages give: lists, signed integers, texts, maps, value-or-error.
--   Value       Go's `any`, as encoding/json decodes it, with asInt, asInt64 and isEmpty
--               (internal/telegram/bot.go, internal/tools/helpers.go).
--   Bot         internal/telegram/bot.go: the callback cursor (loadCursor, storeCursor:
--               Bot.Cursor), GetCallbackQueries over the queue file (readQueue: Bot.Queue) and over
--               getUpdates (confirmUpdates, webhookHint: Bot.Updates), and the resume map
--               (RecordResumeSession, trimResumeMap, LookupResumeSession: Bot.Resume). A history of
--               polls and restarts is a list of events (Bot.History), run against a reader: a record
--               of a request type and a step, which both ways of polling fill.
--   Keyboard    internal/telegram/keyboard.go: BuildInlineKeyboard and all it calls.
--   Aliases     internal/aliases/aliases.go: Key, Load, Lookup, Save, Delete and the file's write; the
--               directory that the file stands for is Aliases.Directory.
--   Results     internal/tools/result.go: Err, SafeError, unknownAction, closestMatch.
--   Programs    the shape of the handlers of internal/tools. A handler is a Program: it ends with a
--               result, or makes a call of the backend and goes on with each possible answer. So a
--               statement about the calls of a Program (Programs.Calls) is one about every backend.
--   Messages    internal/tools/messages.go: HandleMessage and each of its handlers.
--   Tools       the other tools of internal/tools: chats.go (Tools.Chats), media.go (Tools.Media),
--               contacts.go with aliases.go (Tools.Contacts), folders.go (Tools.Filing), profile.go
--               (Tools.Profile) and config.go (Tools.Setup), whose ServerState is an interface that
--               the server fills (Server.Setup).
--   Config      internal/config/config.go: Load with parseSenders, ApplySaved, detectMode, the paths.
--   Server      internal/server/server.go: New, Connect, Close, RefreshCredentials; connectLoop on a
--               list of turns (Server.Connecting), and as steps between those of the tools
--               (Server.Reach); ready and the functions of the tools (Server.Calls); and
--               internal/server/xpia.go (Server.Marking).
--   Folders     internal/telegram/user_folders.go: the operations that change the chat folders;
--               the request that each one sends is a value.
--   Peers       internal/telegram/peercache.go: the index of peers and its sweeps; lookupNumeric and
--               resolveNumeric of internal/telegram/user.go.
--   Paths       internal/security/security.go: validatePath and what it calls.
--
-- State is passed explicitly: the cursor with its file, the alias store with its file. A file that
-- is written is replaced as a whole, and an argument says whether the write succeeds. An int and an
-- int64 are 64 bits wide: the one addition of the cursor wraps as succ64 does, and the sums of
-- peerRef stay inside 64 bits for the ids that Telegram gives.
--
-- Loops are structural recursion, but for three. matchingRunes recurses on fuel, the length of its
-- first text: each call cuts a part off that is not longer than what the fuel counts. The search of
-- nextFolderID is given 254 steps, the ids from 2 to 255, and a walk over a chat list 1000, the pages
-- times the page size, both as in the source.
--
-- connectLoop has no end of its own: it runs on a list of what its attempts meet, and a loop whose list
-- has run out is still at it. Waits are in nanoseconds, as in a Duration.
--
-- Arguments of the definitions, since they are not code of this repository: the JSON decoder of a
-- line of the queue or of the resume map, and the encoders of an entry and of a result; the Unicode
-- tables behind NFC and lower case; regexp, time.Parse and its formats; fmt's %q and Sprint; the
-- answers of Telegram; the environment of the process, and the file system under Paths and Config.
-- Two parts of this repository are arguments too, where they are used: resolvePeer, which asks
-- Telegram, in the folder operations, and what the credential store answers in the server.
--
-- Not modelled: the connection and authentication of the user backend, its MTProto requests and the
-- references by name; the bot's other requests; session files and locks, the clock correction, the
-- credential store, URL validation and download, the registration of the tools and resources with
-- the MCP library, the help texts, and the command line. They call libraries and the network for the
-- most part. Log lines are left out, and so is the wording of most errors.
pub mod Aliases
pub mod Base
pub mod Bot
pub mod Config
pub mod Folders
pub mod Keyboard
pub mod Messages
pub mod Paths
pub mod Peers
pub mod Programs
pub mod Results
pub mod Server
pub mod Tools
pub mod Value
