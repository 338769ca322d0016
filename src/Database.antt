-- ===== src/Database.antt =====
-- mautrix_asmux/database/table: the three classes of rows and their caches.
pub mod Azs
pub mod Rooms
pub mod Users
