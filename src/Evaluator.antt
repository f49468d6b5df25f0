-- ===== src/Evaluator.antt =====
-- tools/bp2cmake/bp2cmake/evaluator.py: the class `Evaluator`. The children hold its parts: the
-- expressions, the property maps with their defaults and selects, and the modules made of them.
pub mod Expressions
pub mod Selects
pub mod Collapse
pub mod Mapping
pub mod Modules
pub mod Defaults
pub mod Recursion
pub mod Collisions
pub mod Generated
pub mod Tags
pub mod Arms
