-- ===== src/Secrets.antt =====
-- src/promch/k8s_secrets.py
pub mod Base64
pub mod Utf8
pub mod Reader
