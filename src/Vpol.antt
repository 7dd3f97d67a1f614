-- ===== src/Vpol.antt =====
-- pkg/engine/vpol: the compiler of policies and what a compiled policy does with a request.
pub mod Runtime
pub mod Policy
pub mod Match
pub mod Rules
pub mod Failure
pub mod Compiler
