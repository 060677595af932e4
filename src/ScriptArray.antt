-- ===== src/ScriptArray.antt =====
-- source/array.c: the arrays of the scripts, each with an index that sorts its items by `strcmp`.
pub mod Index
pub mod Table
pub mod Calls
pub mod Changes
pub mod Valid
pub mod Search
pub mod Shift
pub mod Moved
pub mod Reorder
pub mod Locate
pub mod Store
pub mod Remove
pub mod TakeOut
pub mod Contents
pub mod Kept
pub mod Setting
pub mod Deleting
pub mod Functions
pub mod Runs
pub mod Round
pub mod Erase
pub mod Append
pub mod Inserted
pub mod Standing
pub mod Creating
