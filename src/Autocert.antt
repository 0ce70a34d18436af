-- ===== src/Autocert.antt =====
-- internal/autocert: certificates. Sni chooses the certificate of a server name; Names has the names
-- and their labels.
pub mod Names
pub mod Sni
mod Tests
