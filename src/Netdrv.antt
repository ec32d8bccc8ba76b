-- ===== src/Netdrv.antt =====
-- netdrv/: the name server, and the addresses of the servers.
pub mod Names
pub mod Tests
