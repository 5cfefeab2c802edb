-- ===== src/Access.antt =====
-- What guards the requests: middlewares/rate_limit.go, utils/auth_cache.go and middlewares/rbac.middleware.go.
pub mod RateLimit
pub mod Counting
pub mod Granted
pub mod AuthCache
pub mod Roles
pub mod Strongest
pub mod Ownership
mod Tests
