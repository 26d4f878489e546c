-- ===== src/Api/DeepCopy.antt =====
-- api/v1alpha1/zz_generated.deepcopy.go
pub mod Heap
pub mod Linked
mod Fields
pub mod Pointers
pub mod Behind
pub mod Types
mod Claims
mod Requests
mod Grants
pub mod Objects
pub mod Apart
