-- ===== src/Api.antt =====
-- internal/api: the types of the HTTP API, its handlers, middlewares and health checks. The gin
-- package is left out: a handler is a function from what it reads of the request to its answer.
pub mod Types
pub mod RateLimit
pub mod Numbers
pub mod Metrics
pub mod Cors
pub mod Handler
pub mod Health
pub mod Context
pub mod Middleware
pub mod Router
