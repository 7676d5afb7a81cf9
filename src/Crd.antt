-- ===== src/Crd.antt =====
-- pkg/crd: schemas of custom resources, their markers and their flattening.
pub mod Schema
pub mod Flatten
pub mod Flattener
pub mod Markers
pub mod Spec
pub mod Describe
pub mod Types
pub mod Struct
pub mod Packages
pub mod Generate
