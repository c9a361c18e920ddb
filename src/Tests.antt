-- ===== src/Tests.antt =====
-- Runs of the definitions on concrete inputs, and an instance of the interface to `http`.
pub mod Instance
mod Texts
mod Balancers
mod Gateway
mod Building
mod Pipelines
mod Expansions
mod Generated
mod Assembly
mod Serving
