-- ===== src/Identity.antt =====
-- Who is speaking: the parsing of Speaker-ID's answers (router/speaker_identity.py) and the resolution of
-- a session's identity from them (router/lifecycle/identity.py).
pub mod Answers
pub mod Resolution
pub mod Trust
mod Tests
