-- ===== src/Admin.antt =====
-- The management panel: api/panel/admin_scanners.py, admin_profiles.py, admin_settings.py and routes.py,
-- with the calls of api/db.py that they make. A handler's state is the tables and the one-time key that
-- the session keeps for the next page; the pages' texts, the descriptions of scanners and profiles and
-- the metadata of audit entries are not modelled.
mod Tables
mod Config
mod Keys
mod Requests
mod Scanners
mod Profiles
mod Settings
mod Actions
pub mod Guard
pub mod Invariant
pub mod Members
pub mod KeyStore
pub mod Rescan
unfoldable pub use Tables.*
unfoldable pub use Config.*
unfoldable pub use Keys.*
unfoldable pub use Requests.*
unfoldable pub use Scanners.*
unfoldable pub use Profiles.*
unfoldable pub use Settings.*
unfoldable pub use Actions.*
