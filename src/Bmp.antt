-- ===== src/Bmp.antt =====
-- internal/ingest/bmp.go: bgpd's stream of BMP messages (RFC 7854) into neighbor states and L3VPN
-- routes. The state is the map of route distinguishers to VRF names and the VRF resolver's map.
pub mod Nlri
pub mod Peer
pub mod Update
pub mod Race
pub mod Stream
