-- ===== src/Speaker.antt =====
-- Source/Libs/Audio/Speaker.c: the speaker's PWM channel and its two volume pins.
pub mod Env
pub mod Pwm
pub mod Volume
pub mod Device
pub mod Pins
pub mod Tone
pub mod Refine
pub mod Pitch
pub mod Off
pub mod Failure
pub mod Tests
