-- ===== src/Directory.antt =====
-- apps/api/src/auth/ldap.service.ts (`Names`, `Lookup`) and channel-sync.service.ts (`Slugs`,
-- `ChannelSync`): who a person is in the directory, and the channels that follow from it.
pub mod Names
pub mod Filters
pub mod Components
pub mod Lookup
pub mod Slugs
pub mod ChannelSync
pub mod Synced
pub mod Memory
pub mod Tests
