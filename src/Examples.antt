-- ===== src/Examples.antt =====
-- Small runs of the code: a concrete machine, and the theorems at concrete states.
mod Platform
mod Allocation
mod Blocks
mod Table
mod Directory
mod Mounting
mod Making
mod Iterators
mod Formatting
mod Arguments
mod Caching
mod Reading
mod Rooting
mod Formatted
mod Modules
mod Releasing
mod Files
mod Stored
