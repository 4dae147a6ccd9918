-- ===== src/Routes.antt =====
-- src/convert/routes.ts: the legs that a conversion can be made of, and the enumeration of every
-- candidate route; with the tables that it reads, of src/convert/boltz/stablecoin.ts and
-- src/convert/sideshift.ts.
pub mod Legs
pub mod Enumerate
pub mod Sorted
pub mod Chain
pub mod Leads
pub mod Sound
mod Tests
