-- ===== src/Battery.antt =====
-- Source/Libs/Battery/Battery.cpp: the GPIO lines of the dock and of the charger, and the gauges of
-- the battery's driver.
pub mod State
pub mod Gpio
pub mod Events
pub mod Gauge
pub mod Locking
pub mod Lines
pub mod Tests
