-- ===== src/Middleware.antt =====
-- internal/middleware: the clients of the services that the program wraps.
pub mod Jwt
pub mod Lock
pub mod Rabbitmq
pub mod RateLimit
pub mod SlidingWindow
