-- ===== src/Flood/Off.antt =====
-- What happens when FLOOD_USERS is set to zero and back.
use tek_nap.Common.{ℕ, ◌≡◌, ◌≢◌, refl, ◌==◌, true, false, none, arith}
use tek_nap.Common.Int.{pos}
use tek_nap.Flood.Table.{Flood, done, fault}
use tek_nap.Flood.{Call, resize_table, search_table, is_none, check_flooding}

-- Connected to a server and while FLOOD_USERS is zero, `check_flooding` comes to an end and leaves a
-- null pointer for the table, and the next call that is connected and finds FLOOD_USERS at the size,
-- above zero, that the table had before makes no new table and ends in a fault, the read through that
-- pointer, with any fuel.
pub check_flooding_off_on :
    (fuel fuel' : ℕ) (c c' : Call) (s : Flood)
    → is_none c.server ≡ false
    → is_none c'.server ≡ false
    → c.flood_users ≡ 0
    → c'.flood_users ≡ s.users
    → s.users ≢ 0
    → (s' : Flood) × (check_flooding fuel c s ≡ done (s', pos 1))
      × (s'.flood ≡ none)
      × (resize_table c'.flood_users s' ≡ s')
      × (check_flooding fuel' c' s' ≡ fault)
unfolding check_flooding resize_table search_table
check_flooding_off_on fuel fuel' c c' s on on' z same n =
    let a : (c.flood_users == 0) ≡ true = ground arith in
    let b : (c'.flood_users == 0) ≡ false = ground (arith, n) in
    let d : (s.users == c'.flood_users) ≡ true = ground arith in
    (record s { flood = none }, rw (on, a), refl, rw d, rw (on', b, d))
