-- ===== src/Util.antt =====
-- src/util.rs and `format_age` of src/protocol.rs: helpers on text. A string is the list of its code points.
pub mod Names
pub mod Places
pub mod Tail
pub mod Parse
mod Tests
