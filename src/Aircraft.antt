-- ===== src/Aircraft.antt =====
-- api/src/aircraft: seat positions and seat layouts.
pub mod Position
pub mod Layout
