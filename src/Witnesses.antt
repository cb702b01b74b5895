-- ===== src/Witnesses.antt =====
-- The properties at concrete inputs. The data are in Data; the outside world there is a small one:
-- one host that resolves to a public address, one that resolves to a private one.
pub mod Data
pub mod Feeds
pub mod Policies
pub mod Tables
pub mod Runs
pub mod Deployment
pub mod Fetches
pub mod Listing
pub mod Registry
pub mod Api
pub mod Service
pub mod Running
