-- ===== src/Lib.antt =====
-- PennCloud: a replicated key-value store, with a web front end, a mail service and file storage
-- on top of it. This library models the store, the backend/ and utils/ directories of the
-- repository, and the front end: its HTTP server with sessions and routes, accounts, mails, files,
-- the administration, the balance between the front-end servers, and the SMTP server.
--
-- The store has six workers and a coordinator. A key's hash gives it one of six tablets; tablet t
-- is kept by worker t, its primary, and by the two workers behind it on the ring of six. A client
-- asks the coordinator for a worker that is alive (MasterNode::Lookup) and sends its request there.
-- A write changes the tablet in memory, is appended to the tablet's log, is counted, and is sent on
-- to the replicas; the tenth update writes a checkpoint of the tablet and clears the log. A worker
-- that starts asks the coordinator who holds its tablets now, and copies each from there, or
-- rebuilds it from its own checkpoint and log.
--
-- The parts, their source and their modules:
--   * Wire, Serializer (utils/serializer.cc): strings and tablets as bytes. A length is four
--     bytes, lowest first, and wraps at 2^32. `deserialize_tablet` keeps what was read before a
--     failure in the table, as the code does with the table it is given.
--   * Logger (utils/logger.cc, utils/logger.h): the write-ahead log. A file is its bytes.
--   * Placement (utils/utils.cc, backend/worker.cc): hashToBucket, the place of a tablet on a
--     worker, the clients that a worker opens and the replicas that it sends a write on to.
--   * Map, Tablet (backend/worker.cc): a tablet as a map of rows that are maps of columns, and what
--     Get, Put, CPut and Delete do to it.
--   * Op (backend/worker.cc): a write with its effect on a tablet, its entry in the log, and
--     replayLogs.
--   * Rpc (backend/kvs_client.h): a call's status and the text that a client method returns.
--   * Worker (backend/worker.cc): the globals of a worker as a record, and the handlers of the
--     service as functions from a state to a state, a reply and the calls made to replicas.
--     Worker.Files rebuilds a tablet from its files, Worker.Restart has recovery, CopyTablet and
--     AdminConsole.
--   * Coordinator (backend/coordinator.cc): the tables of the coordinator, its methods, and a
--     round of the thread that watches the heartbeats.
--   * KeyValue, Cluster: the promise that a client relies on, one map from row and column to a
--     value, and six workers that keep it.
--   * Client (backend/kvs_client.h): the methods of KeyValueStoreClient on a worker of a cluster and
--     of MasterNodeClient on a coordinator.
--   * Service: the interface through which the front end uses the store, with what it relies on
--     (`Serves`). SingleNode (backend/kvs_server.h) is the early service on one tablet; System is
--     the coordinator with the six workers and their clients as such a store, and System.Uploads the
--     storage on it. Tests.SingleHost is a store of one host for concrete inputs, which stands for no
--     code but the handlers of SingleNode.
--   * Account (frontend/user_account/user_account_service.cc): sign-up, authentication and change
--     of a password, over Service.
--   * Mailbox (frontend/email/email_service.cc): appendToMetadata and removeFromMetadata, over
--     Service.
--   * TextServer (backend/key_val_store.cc): expectHELLO, processMessage and its handlers, and
--     processCommand of the second program in that file (TextServer.Commands).
--   * Metadata (utils/utils.cc): query strings, and the metadata of mails.
--   * Smtp (frontend/email/smtp_server.cc): the commands of handle_client as functions from a session
--     to a session and a reply. Smtp.Delivery has the end of a mail, with sendDeliveryFailure and
--     what is sent to other servers, Smtp.Connection the loops over what the client sends.
--   * Storage (frontend/storage/storage_service.cc): the files and folders of a user in one row of
--     the store, through Storage.Disk, the calls of one client on that row. Storage.Names has paths,
--     lists and queries, Storage.Tree deleteRec, renameFolderRec, renameFolderMoveRec, moveFile and
--     moveFolder, Storage.Files the chunks of a file, Storage.Requests, Storage.Form,
--     Storage.Handlers, Storage.Renames and Storage.Moves the requests and the pages.
--     Storage.Overview is the page of a folder.
--   * Email (frontend/email/email_service.cc): Email.Decoding is urlDecode of utils/utils.cc,
--     Email.Mails sends, shows and deletes mails, Email.Pages and Email.Forms are the pages, and
--     Email.Requests is handleRequest.
--   * Http (frontend/http_server.cc): Http.Headers reads requests, Http.Sessions has
--     getUsernameFromSession, generateSessionCookie and handleLogout, Http.Accounts the pages of
--     accounts, Http.Routes the tests of client_connection as a function from a request to a route,
--     Http.Pages and Http.Serving what is answered on each route, Http.Connections the loop of a
--     client.
--   * Admin (frontend/admin/admin_service.cc): Admin.Control switches workers and front-end servers
--     through the interface `Servers`, Admin.Pages and Admin.Tablets are the pages.
--   * Balancer (frontend/load_balancer.cc): the choice of a front-end server and the responses.
--   * Tests: concrete inputs.
--
-- An exception and a call of exit are values (`threw`, `none`). Loops over a list are recursion on
-- the list. The loops that read a log or send a tablet in chunks run on fuel: the length of the
-- file or of the text, which is enough because every round takes one byte at least; so do the
-- loops over a query string, over the lines in the buffer of the SMTP server and over the chunks of
-- a file. The recursion into folders and the search for a free name take their fuel as an argument
-- and give `none` without enough: for deleting, the number of folders and one more is enough, since
-- each round marks one folder as deleted; the others need not end. The search for the number of a
-- session has as many rounds as its fuel: a free number among so many of rand is enough.
--
-- Parameters: std::hash, and the order in which an unordered_map is iterated (`Platform`); what a
-- Write on a stream returns; what a client returns for CopyTablet; whether a front-end server
-- answers its health check; what the calls of read on a socket give; the reason why the server of a
-- mail's domain cannot be reached, the clock and rand; the files of the pages, the result of system,
-- what the server at port 8080 answers, and whether the SMTP server can be reached
-- (`Surroundings`, `Servers`). `Answers` says that Put and Delete on a host that serves the row
-- return no error text. `Iterates` says what the code relies on:
-- iterating a tablet changes its order at most.
--
-- Not modelled: the transport (a call arrives whole or gives an error text), failing file
-- operations, what is written to the console, command lines and ports, negative worker numbers,
-- threads of the servers, and handlers of one worker that run at the same time on one tablet: a
-- handler is one step. Of utils/utils.cc, the time of generateUniqueId is left out; of the storage,
-- the reading of a body in chunks, whose result is a parameter. The SMTP client, which asks for the
-- server of a domain, and the prototype under web_storage_service/ are not part of this library.
pub mod Prelude
pub mod Map
pub mod Tablet
pub mod Wire
pub mod Serializer
pub mod Logger
pub mod Rpc
pub mod Placement
pub mod Op
pub mod Worker
pub mod Coordinator
pub mod Admin
pub mod Http
pub mod Email
pub mod KeyValue
pub mod Cluster
pub mod Client
pub mod Account
pub mod TextServer
pub mod Metadata
pub mod Mailbox
pub mod Balancer
pub mod Smtp
pub mod Storage
pub mod System
pub mod Service
pub mod SingleNode
mod Tests
