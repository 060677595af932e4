-- ===== src/Text.antt =====
-- source/ircaux.c: the strings of the program and the routines on them. A C string is the list of its
-- bytes, without the closing NUL; a pointer into a string is the rest of the string from there on.
pub mod Case
pub mod Search
pub mod Args
pub mod Number
