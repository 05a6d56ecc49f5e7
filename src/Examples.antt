-- ===== src/Examples.antt =====
-- The theorems at concrete boards, replicas and files.
mod Clusters
mod Drawings
mod Services
pub mod Data
mod Boards
mod Clients
mod Browsers
mod Messages
mod Replicas
mod Leaders
mod Lives
mod Files
