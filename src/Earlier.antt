-- ===== src/Earlier.antt =====
-- The earlier programs, which the Makefile does not build: ftpc.c passes a file to tcpdc.c, which
-- sends it through the troll to tcpds.c, which passes it to ftps.c.
pub mod Memory
pub mod Header
pub mod Copies
pub mod Blocks
pub mod Ftpc
pub mod Ftps
pub mod Tcpdc
pub mod Tcpds
pub mod TcpdLib
pub mod Runs
mod Tests
