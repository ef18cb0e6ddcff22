-- ===== src/Cli.antt =====
-- The command line of crates/cli: the node commands and the remote benchmarks.
pub mod Text
pub mod Journal
pub mod Library
pub mod Parameters
pub mod Tracing
pub mod Args
pub mod Genesis
pub mod Run
pub mod Remote
pub mod Main
pub mod Protocol
pub mod Benchmark
