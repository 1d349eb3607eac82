-- ===== src/LanVoice.antt =====
-- app/host/src/lan_voice.rs, in its parts: the playback transfer, the voice frames, the capture of
-- whole recordings, and the text that names each error.
pub mod Playback
pub mod Error
pub mod Frames
pub mod Capture
pub mod Examples
pub mod VoiceExamples
