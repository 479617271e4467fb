-- ===== src/Config.antt =====
-- src/config: the configuration of the gateway, read from JSON and validated.
pub mod ValueType
pub mod Types
pub mod TracePath
pub mod Convertors
pub mod Json
pub mod Keys
pub mod Extract
pub mod Print
pub mod Scalars
pub mod Rtu
pub mod Ranges
pub mod Transports
pub mod Reader
pub mod Validators
