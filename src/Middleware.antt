-- ===== src/Middleware.antt =====
-- The middleware of the framework: the package middleware, and the codec middleware of the root
-- package.
pub mod Chain
pub mod Recovery
pub mod RateLimited
pub mod Router
pub mod Codecs
pub mod Metrics
pub mod Shards
pub mod SingleBucket
pub mod TokenBucket
pub mod Cleaning
