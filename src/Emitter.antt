-- ===== src/Emitter.antt =====
-- tools/bp2cmake/bp2cmake/emitter.py: a module and the policy of the port as CMake text.
pub mod Resolver
pub mod Includes
pub mod Files
pub mod Sources
pub mod Generated
pub mod Output
