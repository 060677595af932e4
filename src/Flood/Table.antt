-- ===== src/Flood/Table.antt =====
-- The table of source/flood.c and the search for a user in it.
use tek_nap.Common.{
  ℕ, ◌+◌, List, [], ◌∷◌, ◌==◌, if◌then◌else◌, Bytes, Bool, true, false, ◌&&◌, Option, none, some,
}
use tek_nap.Common.Int.{is_zero}
use tek_nap.Text.Case.{my_stricmp}

pub data FloodType : Type 0 where
  join_flood msg_flood public_flood : FloodType

-- `Flooding`: a server or a type that is -1 is `none`.
pub record Flooding : Type 0 where
  pub nick : Bytes
  pub channel : Bytes
  pub server : Option ℕ
  pub type : Option FloodType
  pub cnt : ℕ
  pub start : ℕ
  pub floods : ℕ

-- The static variables; `flood` is a null pointer or a table, and `place` is `pos`.
pub record Flood : Type 0 where
  pub flood : Option (List Flooding)
  pub users : ℕ
  pub place : ℕ

-- How a part of the code ends: with a result; with a fault, which is a read outside of the table or
-- through a null pointer; or not within its fuel.
pub data Ended {ℓ} (A : Type ℓ) : Type ℓ where
  done : A → Ended A
  fault : Ended A
  unfinished : Ended A

infixl 5 ◌>>=◌
abbrev pub ◌>>=◌ {ℓ κ} : {A : Type ℓ} {B : Type κ} → Ended A → (A → Ended B) → Ended B
done a >>= f = f a
fault >>= f = fault
unfinished >>= f = unfinished

-- A read that may be a fault.
abbrev pub or_fault {ℓ} : {A : Type ℓ} → Option A → Ended A
or_fault none = fault
or_fault (some a) = done a

-- What a new table is filled with.
unfoldable pub blank : Flooding
blank = record {
  nick = [];
  channel = [];
  server = none;
  type = none;
  cnt = 0;
  start = 0;
  floods = 0;
}

abbrev pub nickname_len : ℕ
nickname_len = 30

unfoldable pub same_type : FloodType → FloodType → Bool
same_type FloodType.join_flood FloodType.join_flood = true
same_type FloodType.msg_flood FloodType.msg_flood = true
same_type FloodType.public_flood FloodType.public_flood = true
same_type _ _ = false

unfoldable pub type_is : FloodType → Option FloodType → Bool
type_is type none = false
type_is type (some t) = same_type type t

unfoldable pub server_is : Option ℕ → Option ℕ → Bool
server_is (some a) (some b) = a == b
server_is none none = true
server_is _ _ = false

-- The two tests of the channel: `chan` is none for a message that went to no channel.
unfoldable pub channel_is : Option Bytes → Bytes → Bool
channel_is none [] = true
channel_is none (c ∷ channel) = false
channel_is (some chan) [] = false
channel_is (some chan) (c ∷ channel) = is_zero (my_stricmp chan (c ∷ channel))

-- All tests of a round of the search.
unfoldable pub is_user : Bytes → Option Bytes → FloodType → Option ℕ → Flooding → Bool
is_user nick chan type server e =
    type_is type e.type
    && (server_is server e.server
        && (is_zero (my_stricmp nick e.nick) && channel_is chan e.channel))

-- The loop `for (i = 0; i < users; i++)` over what is left of the table; `none` is `i == users`.
unfoldable pub find_user :
    Bytes → Option Bytes → FloodType → Option ℕ → List Flooding → ℕ → Option ℕ
find_user nick chan type server [] i = none
find_user nick chan type server (e ∷ es) i =
    let later = find_user nick chan type server es (i + 1) in
    if is_user nick chan type server e then some i else later
