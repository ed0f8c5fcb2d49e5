-- ===== src/Mutation.antt =====
-- The primitives of the mutation gate, scripts/quality/pitest_policy/__init__.py.
pub mod Text
pub mod Pool
pub mod ClassFile
pub mod Floor
pub mod Routing
pub mod NoCoverage
pub mod Descriptor
mod Examples
