-- ===== src/Macros.antt =====
-- apigate-macros: the procedural macros of the gateway. The parser `syn` is not part of the
-- repository: what it makes of the tokens is a parameter, and so are the meanings of the names that
-- the generated code calls.
pub mod Expand
pub mod Args
pub mod Codegen
pub mod Service
