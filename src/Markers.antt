-- ===== src/Markers.antt =====
-- pkg/markers: the names, the arguments, the registry, the collection and the parsing of markers,
-- and the text of docs.
pub mod Argument
pub mod Name
pub mod Definition
pub mod Registry
pub mod Help
pub mod Scanner
pub mod Guess
pub mod Parse
pub mod Collect
pub mod Docs
mod Tests
