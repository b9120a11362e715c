-- ===== src/Server.antt =====
-- pkg/kunpeng-tap/server: the proxies between the kubelet and the runtimes.
pub mod DockerUtils
pub mod HookManager
pub mod Nri
pub mod Dispatcher
pub mod DockerHandler
mod Examples
