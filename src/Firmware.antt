-- ===== src/Firmware.antt =====
-- The edge gateway (firmware/): its wire protocol, its MQTT packets, its commands, its offline buffer,
-- its duty cycle.
mod Bits
pub mod Modbus
pub mod Commands
pub mod Buffer
pub mod Loop
pub mod Mqtt
mod Tests
