-- ===== src/Lib.antt =====
-- Verification of kodegen-tools-citescrape: the crawl engine's scheduling and rate limiting, the
-- caches and the browser pool it shares, and the text functions of its Markdown and search parts.
--
-- Parts and their files (paths from the repository's root):
--   src/crawl_engine/circuit_breaker.rs: CrawlEngine/CircuitBreaker, the breaker as a map from domains to
--     the health of one domain (Health: its transitions, Timing: runs of calls, Domains: the map);
--   src/crawl_engine/rate_limiter.rs: CrawlEngine/RateLimiter, the token bucket of a domain with the two
--     compare-and-swap loops of try_consume_token and refill_tokens as single atomic steps of any
--     number of tasks (Steps, Tasks), and calls one after another (Retry, SlowRate); and
--     CrawlEngine/CrawlRateLimiter, the buckets of all domains;
--   src/crawl_engine/retry_queue.rs: CrawlEngine/RetryQueue; it asks the circuit breaker which domains are
--     ready;
--   src/crawl_engine/crawl_types.rs and calculate_retry_backoff of orchestrator.rs: CrawlEngine/Failure;
--   src/crawl_engine/orchestrator.rs (crawl_pages): CrawlEngine/Orchestrator, one step relation for the loop
--     and for what running page tasks do to the shared queue, page counter and breaker;
--     CrawlEngine/Links is the batch of links that a page pushes (page_processor.rs);
--   src/mcp/manager/search_cache.rs with timestamp_utils.rs: Mcp/SearchCache, an operation for each locked
--     section (Calls) and a step relation for their interleavings (Capacity);
--   src/inline_css/domain_queue.rs: InlineCss/DomainQueue, the worker of a domain and its cache keys;
--   src/search/query/snippets.rs: Search/Fragments, the search for fragments, and Search/Snippets, the
--     merging of ranges and the marks around them;
--   src/crawl_engine/crawler.rs: CrawlEngine/Crawler, the filter of the links that a page has (Scope: the
--     URLs that it lets through, Domains: the list of allowed domains);
--   src/crawl_engine/domain_limiter.rs: CrawlEngine/DomainLimiter, calls, permits and drops as steps, over
--     an interface for the LRU map of the crate lru (operations and laws);
--   src/browser_pool/mod.rs: BrowserPool, the calls of acquire_timeout from one await to the next
--     (Acquire), the tasks for scaling, keepalive and release and the shutdown (Background), and their
--     interleavings as a step relation (Steps); the invariants count browsers by weights (Weights);
--   src/content_saver/markdown_converter/htmd/text_util.rs, html_escape.rs and
--     element_handler/list_processing.rs: ContentSaver/Htmd; dom_walker.rs there: MarkdownEscape, the
--     escapes of text, and DomWalker, the walk over the nodes (Walk), what it makes of neighbours
--     (Similar), and its buffer; element_handler/table.rs: Table, the layout of a Markdown table, and
--     Table/Extract, the reading of the HTML table. The handlers of other elements are a parameter.
--   src/content_saver/markdown_converter/html_to_markdown.rs: ContentSaver/Classify, the kinds of lines, and
--     ContentSaver/Normalizer, the state machine that normalizes Markdown line by line (Emits: what one
--     line does, Spacing: the whole text); ContentSaver/TableFormat, the formatting of its tables.
-- Base holds the shared names, finite maps with text keys, sets, Boolean tests and list lemmas. A
-- module named Tests runs a component's definitions and theorems on concrete values.
--
-- Correspondence: a struct is a record, an enum a data type, and a function or handler one function
-- of the same name; an argument stands for the clock. Times are nanoseconds and numbers natural
-- numbers; u32 counters wrap and the u64 arithmetic of the rate limiter saturates as in the source.
-- DashMap and HashMap values are association lists in the order of iteration. Parameters stand for
-- the crates url, lru, regex, tantivy, html_escape, markup5ever_rcdom and rand, for the browser's
-- answers and for the network, with what is assumed of them as named hypotheses or laws (InRange,
-- SetsPaths, Tokens, Answers, LruCache). Floating-point factors are exact rationals, without the
-- rounding of f64. An aborted task of the browser pool may take further steps before it stops.
--
-- Loops are structural recursion. The one loop on fuel, the eviction of the search engine cache,
-- gets as much fuel as there are entries, and every round removes one. The loop of a call of the
-- browser pool is cut into turns from one await to the next. Schedules and
-- step relations are finite sequences of any length.
--
-- Not modelled: the browser process and its profile directories, the event bus, log output, the
-- semaphores of the crawl loop, the storage of pages and indexes, the wait of the download worker for
-- its rate limiter, the handlers of HTML elements other than tables and lists, the rewriting of
-- links, and the parts of src that only call other crates.
pub mod Base
pub mod CrawlEngine
pub mod BrowserPool
pub mod ContentSaver
pub mod Mcp
pub mod Search
pub mod InlineCss
