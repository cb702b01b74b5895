-- ===== src/Policy.antt =====
-- fetcher/policy.py: when to fetch a feed again (NextFetch) and what a response's headers say
-- (Headers).
pub mod NextFetch
pub mod Headers
