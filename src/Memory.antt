-- ===== src/Memory.antt =====
-- api/v1/zz_generated.deepcopy.go: the deep copies of the API's types, over Go's memory.
pub mod Store
pub mod Types
pub mod Copies
pub mod Shapes
pub mod Pointers
pub mod Separation
