-- ===== src/Scan.antt =====
-- internal/scan: the scanner of networks.
pub mod Ports
pub mod Run
