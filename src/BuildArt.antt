-- ===== src/BuildArt.antt =====
-- tools/build_art.py: the frontend of the build. What it reads from the host, the file system and
-- other programs are arguments of the functions.
pub mod Options
pub mod Commands
pub mod Links
