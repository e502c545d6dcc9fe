-- ===== src/Wechat.antt =====
-- gobackend/wechat: native orders, the payment notification, the settings, the certificates on disk
-- and the check of signatures.
pub mod CertName
pub mod Crypto
pub mod Pem
pub mod PemText
pub mod Verifier
pub mod CertFind
pub mod CertZip
pub mod Native
pub mod Notify
pub mod PlatformCert
pub mod PlatformKey
pub mod Settings
