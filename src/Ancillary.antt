-- ===== src/Ancillary.antt =====
-- src/ancillary.rs: the control buffer of a socket, what it encodes and what is parsed from it.
pub mod Layout
pub mod Raw
pub mod Buffer
pub mod Take
pub mod Drain
