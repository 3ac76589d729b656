-- ===== src/Providers.antt =====
-- apps/api/src/providers: what the gateway makes of the answers of upstream providers.
pub mod ProviderUsage
