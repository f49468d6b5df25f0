-- ===== src/Probe.antt =====
-- tools/run_dex2oat_no_image.py: the checks of the files that a run of dex2oat wrote.
pub mod Bytes
pub mod Unwind
pub mod Vdex
pub mod Elf
pub mod Windows
pub mod Boot
