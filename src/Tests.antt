-- ===== src/Tests.antt =====
-- Concrete inputs, on which the code runs and the theorems apply.
pub mod Data
pub mod Codecs
pub mod Streams
pub mod Components
pub mod Loop
pub mod Ground
pub mod Terminal
pub mod Client
pub mod Mission
