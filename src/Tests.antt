-- ===== src/Tests.antt =====
-- Concrete inputs of tools/bp2cmake/bp2cmake, at which the theorems hold.
mod Syntax
mod Graph
mod Policy
mod Targets
mod Closures
mod Flags
mod Emitted
mod Bindings
mod Builds
mod Images
mod Boot
