-- ===== src/Audio.antt =====
-- Audio streams, shared/audio_streaming.py: the START metadata and the registry that bounds what is open.
pub mod Metadata
pub mod Registry
pub mod Bounds
pub mod Steps
pub mod Accepts
mod Tests
