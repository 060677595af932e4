-- ===== src/Tests.antt =====
-- The theorems at concrete inputs, and small runs of the code.
mod Strings
mod Patterns
mod Lists
mod Arrays
mod Items
mod Lines
mod Recall
mod Server
mod Clocks
