-- ===== src/Tests.antt =====
-- Each theorem at one concrete input, and small runs.
mod Values
mod Plain
mod Wire
mod Sessions
mod Stores
mod Prompting
mod Schemas
mod Heads
mod Endpoints
mod Printed
mod Facades
mod Contents
mod Clients
