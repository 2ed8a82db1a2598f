-- ===== src/Model.antt =====
-- mash-go/pkg/model: what a device consists of, and how its attributes are read and written.
pub mod Values
pub mod Attribute
pub mod Feature
pub mod Reading
pub mod Writing
pub mod Device
pub mod Access
