-- ===== src/Chroma/PostFilter.antt =====
-- langchain-chromadb/src/postFilter.ts and cel.ts: the part of a condition that Chroma cannot express,
-- compiled with static types into a predicate over a record's metadata.
pub mod Values
pub mod Types
pub mod Operations
pub mod Compiler
pub mod Macros
pub mod Calculation
pub mod Access
pub mod Operators
pub mod Typing
pub mod Results
pub mod Sums
pub mod Junctions
pub mod Fixed
pub mod Typed
pub mod Sound
pub mod Elements
pub mod Tests
