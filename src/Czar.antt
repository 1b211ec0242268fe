-- ===== src/Czar.antt =====
-- protocol/czar: the protocol that carries many streams over one connection.
pub mod Sip
pub mod Err
pub mod Mux
pub mod Client
pub mod Server
