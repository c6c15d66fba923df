-- ===== src/Lib.antt =====
-- The Hexeris messenger's server (server/*.go): models of its parts and what is proved of them.
--
-- The server is one Go process in front of PostgreSQL. A client signs in over HTTP, with a password
-- and then, where it is on, a one-time code; it opens a WebSocket, and sends messages that are
-- written in batches. Uploaded files are kept encrypted. Limiters guard the costly endpoints.
--
--   Limiter    server/limiter.go     RateLimiter: newLimiter, isBlocked, recordFailure, cleanup
--   Calls      server/calls.go       the queue of call signals of a callee who is offline
--   Filecrypt  server/filecrypt.go   Counter: addToCounter; Range: parseSingleRange; Stream:
--                                    encryptStream, newCTRAt; Serve: serveUploadedFile
--   Msgwriter  server/msgwriter.go   flushMessageBatch; Panics: safeFlush; Drain: runMessageWriter
--   Totp       server/totp.go        totpCodeAt, totpVerify
--   Twofa      server/twofa.go       Tickets: the ticket between password and code; Store: secrets,
--                                    the last window and recovery codes; Handlers: the endpoints,
--                                    with userBlocked (server/admin.go) and mustChangePassword
--                                    (server/auth.go)
--   Groups     server/groups.go      Store: tables, statements and the membership cache; Handlers
--                                    and Updates: the endpoints; Requests: sequences of them
--   Signin     server/auth.go        Tokens: generateTokenAt, validateToken and the cut-offs
--                                    (server/admin.go); Login: loginHandler with ensureLDAPUser
--                                    (server/ldap.go); Password: changePasswordHandler
--   Rotation   server/rotatekey.go   Rows: rotateMessages; Secrets: rotateTOTPSecrets; Files:
--                                    rotateFiles; Command: runRotateEncKey; Guard: encKeyGuardStatus
--                                    and checkEncKeyUnchanged (server/enckeyguard.go)
--   Hub        server/ws.go          Sockets: the connections, Client.send of server/main.go, and
--                                    the registry; Routing: routeMessage, routeGroupMessage,
--                                    saveMessage, userExists and the acknowledgements; Signals:
--                                    routeMessageNoSave, handleRead, typing; Session: wsHandler;
--                                    Marks: markDelivered and its batcher (server/delivery.go)
--   Messages   server/history.go     Table: the rows and their queries; History: historyHandler;
--                                    Pending: deliverPending; Changes: server/messages.go; Search:
--                                    server/search.go; Attachments: server/attachments.go
--   Chatprefs  server/chatprefs.go   mutes, archive and cleared conversations
--   Unfurl     server/unfurl.go      Address: isDisallowedIP and the dialer; Cache:
--                                    server/unfurlcache.go; Handler: unfurlHandler
--   Base       names from the libraries, Boolean tests, maps as association lists
--   Examples   concrete inputs
--
-- How the code is read. A function that a mutex guards is one step on a state. Time is an argument
-- of each call: seconds where the source takes Unix times, nanoseconds where it takes durations. A
-- table is a list or a map of its rows; a statement of SQL is a function on it that runs at once,
-- and a parameter `up` says for every statement whether it works, so that a theorem for every `up`
-- covers every failure. What a request's token says and the decoded body are arguments of a
-- handler; the answer is a value with its status. Go's maps are association lists in the order of
-- their writes. Where the code visits a map with a range statement, the events to the members of a
-- group go out in that order, and the order of the map of calls is a parameter (`visited`). Code
-- that is not in the repository is a parameter: AES and XOR (`Aes`, with the law that XOR undoes
-- itself), HMAC-SHA1 and base32 (`Hotp`), SHA-256 and bcrypt (`Crypto`), JWT (`Jwt`), the LDAP
-- directory (`Directory`), the INSERT of PostgreSQL (`insert_rows`), `strings` and `unicode`
-- (`World`). AES-GCM is `Gcm`, with the law that a key opens what it sealed; the operations of a
-- rotation on a file each work, fail or end the process (`Faults`).
-- `Crypto` also has encryptBody and decryptBody of server/main.go, of which no theorem assumes
-- anything.
--
-- Bounds and fuel. The block counter wraps at 2^128 and its words at 2^64; offsets and file sizes
-- are below 2^63. Three loops run on fuel: `run_message_writer`, for which a round per queued
-- request is enough, `rotate_pages`, for which more rounds than rows are, and the scan of a search,
-- for which ten rounds are; every other loop is a recursion on a list or on its number of rounds.
-- A read of several rows can fail, and where a property depends on it, it can also break off behind
-- some of its rows without an error, as `rows.Next` does (`PageRead`, `scan_member`).
--
-- Not modelled: presence broadcasts, registration, the sync of reactions, profiles, the
-- encryption of bodies, the fetch of link previews, administration, single sign-on, exports and
-- metrics; the schema, logs, texts and goroutines of the files above; data races between a handler's
-- statements.
pub mod Base
pub mod Calls
pub mod Chatprefs
pub mod Filecrypt
pub mod Groups
pub mod Hub
pub mod Limiter
pub mod Messages
pub mod Msgwriter
pub mod Rotation
pub mod Signin
pub mod Totp
pub mod Twofa
pub mod Unfurl
pub mod Examples
