-- ===== src/Agent/Docker.antt =====
-- agent/internal/dockerapp: the parts of the Docker client that compute.
pub mod Follow
