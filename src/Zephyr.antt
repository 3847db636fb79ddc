-- ===== src/Zephyr.antt =====
-- The parts of Zephyr that the program calls, as interfaces: what their documentation promises, for
-- any implementation.
pub mod MsgQueue
pub mod NetAddr
pub mod ItemRing
pub mod ByteRing
pub mod Errno
pub mod I2c
pub mod Sensor
pub mod LineControl
pub mod Samples
