-- ===== src/Cel.antt =====
-- convex/src/cel.ts: CEL's value semantics, one child for each section of that file. A value that
-- CEL would raise on comes back as `evaluation_error`.
mod Tests
pub mod Path
pub mod Equality
pub mod Order
pub mod CodePoints
pub mod Mirror
pub mod Hierarchy
pub mod Timestamp
pub mod Duration
pub mod Rendering
pub mod Conversion
pub mod Arithmetic
