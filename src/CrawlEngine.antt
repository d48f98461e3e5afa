-- ===== src/CrawlEngine.antt =====
-- src/crawl_engine: the crawl loop and the components that it drives.
pub mod CircuitBreaker
pub mod RateLimiter
pub mod Failure
pub mod RetryQueue
pub mod Orchestrator
pub mod Links
pub mod Crawler
pub mod DomainLimiter
pub mod CrawlRateLimiter
