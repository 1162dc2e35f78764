-- ===== src/Suite.antt =====
-- The unit tests of wg-ondemand/src, as definitions that compute: each is the conjunction of its
-- assertions.
mod State
mod Config
mod Controller
mod Types
mod Routes
