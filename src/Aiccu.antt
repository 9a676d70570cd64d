-- ===== src/Aiccu.antt =====
-- aiccu, the SixXS client: AYIYA tunnels (ayiya.c), the dialogue with a TIC server (tic.c) and the lines of a
-- TCP stream (common.c).
pub mod Clock
pub mod Ayiya
pub mod Lines
pub mod Tic
