-- ===== src/Tests/Recall.antt =====
-- source/history.c at concrete histories.
use tek_nap.Common.{◌≡◌, refl, codes, [], ◌∷◌, some, none, arith, take, length, ◌+◌, true, false}
use mathlib.Core.List.{reverse_aux}
use tek_nap.Text.Args.{next_arg}
use tek_nap.Text.Search.{sindex, first_outside, in_group, first_inside}
use tek_nap.Text.Case.{my_strnicmp, fold}
use tek_nap.History.Entries.{Entry, Direction, History}
use tek_nap.History.Valid.{Valid, lines, set_history_size-take}
use tek_nap.History.Log.{Logged, add_to_history_list-Logged}
use tek_nap.History.Pieces.{pieces, add_to_history-pieces}
use tek_nap.History.Entries.{head_of}
use tek_nap.History.Browse.{at_pos, get_from_history_buffer}
use tek_nap.History.Circle.{get_from_history_buffer_back}
use tek_nap.History.Number.{do_history-added}
use tek_nap.Common.Int.{negsuc}
use tek_nap.Common.{get_elem?, Bytes}
use tek_nap.Text.Search.{is_number, my_isspace, isdigit}
use tek_nap.Text.Number.{
  my_atol, int_of_long, signed_value, past_space, plus_minus, digits_value, wrap_int,
}
use tek_nap.History.Recall.{with_rest, do_history, clear, history, history_arg, clear_flag}
use tek_nap.History.{add_to_history_list, add_to_history, set_history_size}

abbrev two_lines : History
two_lines = record {
  entries =
      record { address = 8; number = 1; stuff = codes "join" }
      ∷ record { address = 5; number = 0; stuff = codes "msg" }
      ∷ [];
  command_history_pos = none;
  hist_size = 2;
  hist_count = 2;
  last_dir = Direction.prev;
  tmp = none;
  fresh = 9;
  last_com = none;
}

two_lines-Valid : Valid 2 two_lines
two_lines-Valid = record {
  counted = refl;
  bounded = omega arith;
  ordered = (omega arith, (omega arith, tt));
}

add_to_history_list-Logged_example :
    (h' : History) × (add_to_history_list 2 two_lines 2 (codes "part") ≡ some h')
    × Logged 2 two_lines h' (codes "part")
add_to_history_list-Logged_example =
    add_to_history_list-Logged 2 two_lines 2 (codes "part") two_lines-Valid

add_to_history-pieces_example :
    (h' : History) × (add_to_history 9 2 two_lines (codes "who\nme") ≡ some h')
    × Valid 2 h'
    × (lines h'.entries ≡ take 2 (reverse_aux (pieces (codes "who\nme")) (lines two_lines.entries)))
    × (h'.hist_count ≡ 2 + length (pieces (codes "who\nme")))
add_to_history-pieces_example =
    add_to_history-pieces 9 2 two_lines (codes "who\nme") (omega arith) two_lines-Valid

set_history_size-take_example :
    (h' : History) × (set_history_size two_lines 1 ≡ some h')
    × Valid 1 h'
    × (lines h'.entries ≡ take 1 (lines two_lines.entries))
set_history_size-take_example = set_history_size-take 2 1 two_lines two_lines-Valid

get_from_history_buffer_back_example :
    (g : Entry) × (head_of (two_lines.entries) ≡ some g.address)
    × (get_from_history_buffer 2 true [] false (at_pos two_lines (some 5))
        ≡ some (at_pos two_lines (some g.address), some g.stuff))
    × (get_from_history_buffer 2 true [] true (at_pos two_lines (some g.address))
        ≡ some (at_pos two_lines (some 5), some (codes "msg")))
get_from_history_buffer_back_example =
    get_from_history_buffer_back 2 [] two_lines two_lines-Valid
      (record { address = 8; number = 1; stuff = codes "join" } ∷ [])
      (record { address = 5; number = 0; stuff = codes "msg" }) [] refl

-- An argument that is not the flag frees the history.
cleared_by_number : history 1 2 two_lines (codes "5") ≡ some (clear two_lines, [])
unfolding history history_arg next_arg sindex first_outside in_group first_inside my_strnicmp
    clear_flag fold
cleared_by_number = refl

minus_two_is_number : is_number (codes "-2") ≡ true
unfolding is_number
minus_two_is_number = refl

minus_two : int_of_long (my_atol (codes "-2")) ≡ negsuc 1
unfolding int_of_long my_atol signed_value past_space my_isspace plus_minus digits_value isdigit
    wrap_int
minus_two = refl

do_history-added_example :
    (h1 : History) × (h2 : History) × (line : Bytes) × (add_to_history_list 2 two_lines 2
        (codes "part")
      ≡ some h1)
    × (get_elem? (codes "part" ∷ lines two_lines.entries) 1 ≡ some line)
    × (do_history 9 2 (codes "/") h1 (codes "-2") (codes "x")
        ≡ some (h2, some (with_rest line (codes "x"))))
do_history-added_example =
    do_history-added 9 2 (codes "/") two_lines 2 (codes "part") (codes "-2") (codes "x") 1
      two_lines-Valid minus_two_is_number minus_two (omega arith) (omega arith)
