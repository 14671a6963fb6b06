-- ===== src/Rating/Cache.antt =====
-- mod/Rating/rt_cache.c: the reference data that rating workers and call control share. A chained
-- table of 256 buckets for each kind of data; an entry is good for 60 seconds. `time(NULL)` is an
-- argument. Each operation holds the lock of the cache, so it is one step; memory never runs out.
pub mod Table
pub mod Laws
pub mod Kinds
pub mod Preload
