-- ===== src/Enrollment.antt =====
-- Voice enrollment, router/enrollment.py: the phrase plan, the table of sessions, and the service that
-- drives a session from ACTIVE to COMPLETED or TERMINATED.
pub mod Phrases
pub mod Sessions
pub mod Service
pub mod Progress
pub mod Attempts
pub mod Completion
pub mod Sources
mod Tests
