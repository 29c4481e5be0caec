-- ===== src/Kube.antt =====
-- The objects of the Kubernetes API that the operator reads and writes, and the platform that it
-- runs on: a parameter of the development.
pub mod Platform
pub mod Meta
pub mod Pods
pub mod Objects
