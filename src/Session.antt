-- ===== src/Session.antt =====
-- backend/pkg/jwt/jwt.go and backend/internal/controller/restapi/middleware: the tokens that a login
-- hands out, who a request is let in as, and what it may do.
pub mod Tokens
pub mod Middleware
pub mod Holder
pub mod Gate
mod Tests
