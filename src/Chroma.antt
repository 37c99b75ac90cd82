-- ===== src/Chroma.antt =====
-- langchain-chromadb/src/index.ts: the translation of a plan into a Chroma `Where` filter, and its
-- split with a post-filter.
pub mod Outcome
pub mod Comparisons
pub mod Fields
pub mod Where
pub mod Literals
pub mod Translate
pub mod Server
pub mod Meaning
pub mod Groups
pub mod Orderings
pub mod Relations
pub mod Clauses
pub mod Memberships
pub mod Inequality
pub mod Compare
pub mod Pairs
pub mod Leaves
pub mod Sound
pub mod Rules
pub mod Allowed
pub mod Split
pub mod Exact
pub mod Partition
pub mod Refusals
pub mod PostFilter
pub mod Sample
mod Tests
