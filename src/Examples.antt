-- ===== src/Examples.antt =====
-- Runs of the definitions on small inputs, and the theorems at them.
mod Pool
mod Pooling
mod Memory
mod Seeds
mod Calling
mod Projects
mod Naming
mod Layout
mod Lexing
mod Parsing
mod Files
mod Building
mod Comparing
mod Running
