-- ===== src/Frontend.antt =====
-- src/frontend: the VNC server and the terminal.
pub mod Rfb
pub mod Serial
