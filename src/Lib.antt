-- ===== src/Lib.antt =====
-- TekNap, a client for Napster servers with a script language in the manner of ircII. The library is
-- about the parts that the rest of the program stands on: strings and words, wildcard patterns, the
-- two containers (linked lists and sorted arrays), and the parts with a state of their own: the arrays
-- of scripts, the command history, the flood checks, the timers and the messages of a server.
--
-- The parts and where they are:
--
--   Common      shared names, Boolean tests, lists on the native numbers, integers with a sign, and
--               Common.Chain for results that may be missing.
--   Text        source/ircaux.c. Text.Case has stricmp_table, my_stricmp and my_strnicmp; Text.Search
--               has sindex, is_number and remove_trailing_spaces; Text.Args has next_arg and
--               new_next_arg; Text.Number has my_atol and ltoa.
--   Words       source/words.c, with the searches for quotes, rsindex and strext of source/ircaux.c.
--               Places in a line are numbers; Words.Extract has the words of a plain line.
--   Wild        source/reg.c. A round of the loop of new_match is a step on a record of its local
--               variables; Wild.Sets has wild_match, which expands \[ \] sets with new_next_arg.
--   LinkedList  source/list.c. The structures lie in a memory from addresses to cells, and the
--               routines are commands of a state monad that can fail; LinkedList.Chain says which
--               sequence of names a memory holds.
--   Alist       source/alist.c and include/alist.h. Arrays with their allocated slots, the hash of
--               names, the searches and the moves; Alist.Splits says what it is for an array to be in
--               order for a name; Alist.Fixed has the search of a fixed table.
--   ScriptArray source/array.c. An array has its items in the order of their numbers and an index that
--               is sorted by the strings; the names have an index of the same kind.
--               ScriptArray.Functions has the functions of the script language.
--   History     source/history.c. The list of lines from the newest to the oldest, with addresses for
--               the pointers into it; History.Browse has get_from_history_buffer, History.Recall has
--               history_match, do_history and the command HISTORY.
--   Flood       source/flood.c. check_flooding on its table; it ends with a result, with a fault, or
--               not within its fuel.
--   Timer       source/timer.c. The list of pending timers; Timer.Create has add_timer and
--               create_timer_ref; Timer.Execute has ExecuteTimers, where what the command of a timer
--               does to the list is an argument.
--   Incoming    source/newio.c and source/server.c. dgets on the record of a connection, where what
--               can be read, and what ioctl and select answer, is an argument, and what do_server does
--               with its result: nothing, closing the connection, or parse_server.
--   Tests       small runs, and the theorems at concrete inputs.
--
-- They interact as in the code: lists, arrays, timers and flood checks compare names by Text.Case, the
-- history splits its lines by sindex and searches them by wild_match, and wild_match takes the words
-- of a set by new_next_arg. The functions on arrays take their arguments by new_next_arg, fold them by
-- upper, search by wild_match, and print numbers by ltoa, which names new timers as well.
--
-- A string is the list of its bytes without the NUL; a pointer into a string is the rest of the string
-- from there on. A null pointer is `none`, or the address zero in LinkedList. A read or a write outside
-- of what is allocated, through a null pointer or through one to what was freed, is `none`, `overrun`
-- in Wild.Sets and `fault` in Flood. A round of ExecuteTimers that frees the timer it has linked leaves
-- a `dangling` list, and the loop does not go on with it: only kill_current_timer marks a pending timer
-- for that, and nothing calls it. Counters that the code keeps in an int or a long and that only go up by one
-- in a call (counts of items, lines and messages) are natural numbers without a bound; the sums of the
-- hash and the results of my_atol keep their 32 and 64 bits, and the reference of a new timer those of
-- an int. Times are whole microseconds. Bytes from 128 on are out of the range of
-- the hash, where the code takes a char with a sign as an index.
--
-- Loops over a list, a string or a table are structural. The others run on fuel, and their theorems
-- ask for fuel that is above the length of what they run over: the loops of LinkedList,
-- add_to_history, delete_all_timers, ExecuteTimers, and the search for a place of check_flooding,
-- where the number of users is enough. The binary searches of find_array_item take one unit more than the
-- number of items as their fuel, find_item takes one unit more than the size of its index, find_index one for
-- each entry of the index, and find_fixed_array_item two units more than the size of its table: each
-- round but the last one or two takes off at least one place. The loop of new_match has the bound of
-- its own check, 100001 rounds, and the theorem about it asks for sizes that stay below. wild_match
-- takes one unit for each level of sets and one for each word of a set. The search back for a quote
-- runs on fuel, which the moves back over words and the extractions pass on.
--
-- Not modelled: the protocol behind parse_server and its sockets, the IRC mode of a server, windows,
-- screens and the keyboard, the evaluator of scripts with its expressions, variables, aliases and
-- hooks, files and processes, the music players, and the copies of other libraries (md5.c, glob.c,
-- alloca.c, compat.c). What is said to the user is left out, and so is the release of memory where
-- nothing reads it later. Of the modelled files there are left out: the comparisons of list.c by
-- wild_match, the key bindings of history.c that change the input line, the message of find_index of
-- array.c, show_timer and the command TIMER of timer.c with the fields that only they read, an
-- add_timer with a time of -1 that has no timer to update, and the readers of newio.c other than
-- dgets. The C library's tolower, isdigit, strcmp, strncmp, strlcat and strtol are as in the C locale.
pub mod Common
pub mod Text
pub mod Wild
pub mod Words
pub mod LinkedList
pub mod Alist
pub mod ScriptArray
pub mod History
pub mod Flood
pub mod Timer
pub mod Incoming
pub mod Tests
