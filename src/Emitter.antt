-- ===== src/Emitter.antt =====
-- emitterc.go and writerc.go: the output buffer, and the functions that write the content of a scalar.
pub mod Output
pub mod Quoted
pub mod Adding
pub mod Spelled
pub mod ReadBack
mod Tests
