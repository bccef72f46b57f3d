-- ===== src/Types.antt =====
-- Types, mindy/interp/type.c: instances, subtypes, overlap, limited integers and unions.
pub mod World
pub mod Instance
pub mod Subtype
pub mod Limited
pub mod Overlap
pub mod Union
