-- ===== src/Lhf.antt =====
-- The other functions of lib/lhf.cpp, and initd/daytimetcpsrv2.cpp, which uses them.
pub mod TcpListen
pub mod Strtol
pub mod Daemon
pub mod Dump
pub mod Log
