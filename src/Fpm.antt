-- ===== src/Fpm.antt =====
-- internal/ingest/fpm.go: zebra's stream of Netlink messages into updates of the AFT paths. The
-- state is the map of nexthop objects and the VRF resolver's map.
pub mod Nexthop
pub mod Route
pub mod Stream
