-- ===== src/Names.antt =====
-- Which names and ids stand for each other: the map of local users (src/common/src/user_map.rs), and
-- the tables of names (src/common/src/mapping.rs) and of fixed ids (src/common/src/idmap_cache.rs), and
-- the file of the NSS module (src/common/src/nss_cache.rs).
pub mod UserMap
pub mod Tables
pub mod NssCache
