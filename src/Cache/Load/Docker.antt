-- ===== src/Cache/Load/Docker.antt =====
-- LoadStoreDocker fails as soon as the daemon runs a container.
use cloud_native.Cache.Store.{Cache}
