-- ===== src/Macros.antt =====
-- The procedural macros of macros/src and stream/macros/src: what they accept, and what the code that
-- they generate does. An item is given as far as the macros look at it; a panic of a macro, by which
-- the compilation ends, is none.
pub mod Syntax
pub mod Endpoint
pub mod Service
pub mod Mux
pub mod Calls
pub mod Actions
pub mod ServerEnum
pub mod ClientEnum
pub mod ClientTask
