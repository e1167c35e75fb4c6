-- ===== src/Kubeconfig.antt =====
-- pkg/k8s/kubeconfig: kubeconfigs, their files, and the builder that merges them for a site.
pub mod Merging
pub mod Files
pub mod Building
