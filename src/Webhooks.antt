-- ===== src/Webhooks.antt =====
-- The requests that other systems make of the API: the alerts of apps/api/src/rmm and the ticket
-- updates of apps/api/src/glpi, and the jobs of apps/api/src/link-preview, which all end in an update
-- of a message's relations and its broadcast.
pub mod Tables
pub mod Requests
pub mod RmmAlerts
pub mod GlpiTickets
pub mod Previews
pub mod Redelivery
pub mod Statuses
pub mod PreviewRows
pub mod Memory
pub mod Stored
pub mod Tests
