-- ===== src/Audio.antt =====
-- Source/Libs/Audio/Audio.c: the message queue, the tracks, the player and the life of the
-- audio task.
pub mod Track
pub mod Error
pub mod Queue
pub mod Music
pub mod Player
pub mod Control
pub mod System
pub mod Heard
pub mod Tests
