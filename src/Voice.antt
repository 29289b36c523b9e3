-- ===== src/Voice.antt =====
-- crates/igris-voice/src: the voice loop. Samples are `f32`, which is a parameter.
pub mod Vad
pub mod Segments
pub mod Wake
pub mod Distance
pub mod Pipeline
pub mod Tts
pub mod Capture
pub mod Turns
pub mod BargeIn
pub mod Tests
