-- ===== src/Http.antt =====
-- network/http: the request, its parser, the response and the server's handlers.
pub mod Response
pub mod Request
pub mod Context
pub mod Server
mod Tests
