-- ===== src/Flood.antt =====
-- source/flood.c: the check for floods. What is said to the user is left out; the variables, the
-- clock and the value of the hook are arguments.
pub mod Table
pub mod Valid
pub mod Off
use tek_nap.Common.{
  ℕ, zero, suc, ◌+◌, ◌-◌, ◌/◌, ◌%◌, List, [], ◌∷◌, ◌==◌, if◌then◌else◌, Bytes, Bool, true, false,
  not, ◌&&◌, Option, none, some, ltb, leb, get_elem?, set, replicate, take,
}
use tek_nap.Common.Int.{ℤ, pos}
use tek_nap.Flood.Table.{
  FloodType, Flooding, Flood, Ended, done, fault, unfinished, ◌>>=◌, or_fault, blank, nickname_len,
  find_user,
}

-- The arguments of `check_flooding`, and what it reads elsewhere: `from_server`, the clock, the
-- variables FLOOD_USERS, FLOOD_AFTER and FLOOD_RATE, and what the hook FLOOD returns.
pub record Call : Type 0 where
  pub nick : Bytes
  pub chan : Option Bytes
  pub type : FloodType
  pub server : Option ℕ
  pub right_now : ℕ
  pub flood_users : ℕ
  pub flood_after : ℕ
  pub flood_rate : ℕ
  pub hook : ℤ

-- `if (users != numusers)`: the table is made anew.
unfoldable pub resize_table : ℕ → Flood → Flood
resize_table numusers s =
    if s.users == numusers
    then s
    else record s { users = numusers; flood = some (replicate numusers blank) }

-- The `do` loop that looks for a place in the table; `old_pos` is where it began.
unfoldable pub next_place :
    ℕ → (users old_pos : ℕ) → (flood : List Flooding) → (place : ℕ) → Ended ℕ
next_place zero users old_pos flood place = unfinished
next_place (suc fuel) users old_pos flood place = do
  e ← or_fault (get_elem? flood ((place + 1) % users))
  if not (e.floods == 0) && not ((place + 1) % users == old_pos)
      then next_place fuel users old_pos flood ((place + 1) % users)
      else done ((place + 1) % users)

-- `strmcpy (dest, src, NICKNAME_LEN)`
unfoldable pub copy_name : Bytes → Bytes
copy_name src = take nickname_len src

-- The entry for a new user; the field `floods` keeps what it was.
unfoldable pub first_message : Call → Flooding → Flooding
first_message c e = record e {
  nick = copy_name c.nick;
  channel = elim c.chan [ none ↦ [] | some chan ↦ copy_name chan ];
  server = c.server;
  type = some c.type;
  cnt = 1;
  start = c.right_now;
}

-- The branch where nobody was found.
unfoldable pub add_user : ℕ → Call → Flood → List Flooding → Ended (Flood × ℤ)
add_user fuel c s flood = do
  place ← next_place fuel s.users s.place flood s.place
  e ← or_fault (get_elem? flood place)
  done (record s { place = place; flood = some (set flood place (first_message c e)) }, pos 1)

-- `diff == 0 || tmp->cnt / diff >= …`, where the clock may have been set back.
unfoldable pub too_fast : (cnt start right_now rate : ℕ) → Bool
too_fast cnt start right_now rate =
    if right_now == start
    then true
    else if ltb start right_now
    then leb rate (cnt / (right_now - start))
    else rate == 0 && cnt / (start - right_now) == 0

-- The branch where the user was found: the new entry, and the value that is returned.
unfoldable pub count_message : Call → Flooding → Flooding × ℤ
count_message c e =
    if leb c.flood_after (e.cnt + 1)
    then (if too_fast (e.cnt + 1) e.start c.right_now c.flood_rate
        then (record e { cnt = e.cnt + 1; floods = e.floods + 1 }, c.hook)
        else (record e { cnt = 1; start = c.right_now; floods = 0 }, pos 1))
    else (record e { cnt = e.cnt + 1 }, pos 1)

-- Both branches, given the number of the user that was found.
unfoldable pub look_up : ℕ → Call → Flood → List Flooding → Option ℕ → Ended (Flood × ℤ)
look_up fuel c s flood none = add_user fuel c s flood
look_up fuel c s flood (some i) = do
  e ← or_fault (get_elem? flood i)
  let r = count_message c e
  done (record s { flood = some (set flood i r.0) }, r.1)

-- The search; it follows the pointer to the table.
unfoldable pub search_table : ℕ → Call → Flood → Ended (Flood × ℤ)
search_table fuel c s = do
  flood ← or_fault s.flood
  look_up fuel c s flood (find_user c.nick c.chan c.type c.server flood 0)

unfoldable pub is_none : {A : Type 0} → Option A → Bool
is_none none = true
is_none (some a) = false

unfoldable pub check_flooding : ℕ → Call → Flood → Ended (Flood × ℤ)
check_flooding fuel c s =
    if is_none c.server
    then done (s, pos 0)
    else if c.flood_users == 0
    then done (record s { flood = none }, pos 1)
    else search_table fuel c (resize_table c.flood_users s)
