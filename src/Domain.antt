-- ===== src/Domain.antt =====
-- The wallet's domain package (api/internal/domain/wallet): its rows, and the limits on money.
pub mod Model
pub mod Calendar
pub mod Limits
pub mod Daily
pub mod Rail
pub mod Responsible
