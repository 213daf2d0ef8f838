-- ===== src/Http.antt =====
-- The HTTP server of the front end, frontend/http_server.cc: `Headers` reads requests and writes
-- responses, `Sessions` are the sessions of users, `Accounts` are the pages of accounts, `Routes`
-- chooses what a request asks for, `Pages` are fixed pages and files and `Serving` answers; `Connections` is the loop of a client.
pub mod Headers
pub mod Sessions
pub mod Accounts
pub mod Routes
pub mod Pages
pub mod Serving
pub mod Connections
