-- ===== src/Codegen.antt =====
-- dsl/src/codegen.rs: from a program's intermediate representation to the text of the module that
-- runs it (generated/src/maroon_assembler.rs).
pub mod Names
pub mod Types
pub mod Exprs
pub mod States
pub mod Members
pub mod Covered
pub mod Code
pub mod Text
pub mod Slots
pub mod Emit
pub mod Arms
pub mod Frames
pub mod Writes
pub mod Calls
pub mod Jumps
pub mod Targets
pub mod Decls
pub mod Wrappers
pub mod Values
pub mod Messages
pub mod Heaps
pub mod Prepare
pub mod Generate
pub mod Wrapped
pub mod Futures
pub mod Gathered
pub mod Gathers
pub mod Held
pub mod Used
pub mod Sample
pub mod Total
mod Cases
mod Tests
pub mod Whole
pub mod Ends
