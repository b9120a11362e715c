-- ===== src/Cache.antt =====
-- pkg/kunpeng-tap/cache: the pods and containers that the proxy knows, and what is read off their
-- Linux resources.
pub mod Table
pub mod Resources
pub mod Messages
pub mod Convert
pub mod Pods
pub mod Containers
pub mod Store
pub mod Setters
pub mod Validate
pub mod Refresh
pub mod Load
pub mod Containerd
mod Examples
