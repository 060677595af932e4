-- ===== src/Tests/Server.antt =====
-- source/newio.c and source/server.c at concrete messages.
use tek_nap.Common.{ℕ, ◌≡◌, refl, codes, List, [], ◌∷◌, All, arith, map}
use tek_nap.Incoming.{MyIo, Delivery, message}
use tek_nap.Incoming.Message.{Idle, Piece, receive}
use tek_nap.Incoming.Stream.{Sent, Sound, all_calls, delivered, messages_in_order}

-- A connection before its first message.
abbrev connected : MyIo
connected = record {
  buffer = [];
  databuffer = 0 ∷ 0 ∷ 0 ∷ 0 ∷ [];
  data_read = 0;
  buffer_size = 32;
  read_pos = 0;
  write_pos = 0;
  segments = 0;
  len = 0;
  command = 0;
}

-- The head as it is, without `ntohs`.
abbrev as_it_is : ℕ → ℕ
as_it_is n = n

abbrev hello : Sent
hello = record {
  low = 5;
  high = 0;
  command_low = 109;
  command_high = 2;
  piece = record { first = 104; others = codes "e" };
  pieces = record { first = 108; others = codes "lo" } ∷ [];
}

abbrev ok : Sent
ok = record {
  low = 2;
  high = 0;
  command_low = 3;
  command_high = 0;
  piece = record { first = 111; others = codes "k" };
  pieces = [];
}

abbrev talk : List Sent
talk = hello ∷ ok ∷ []

talk_runs :
    (receive as_it_is 16 connected (all_calls talk)).0
    ≡ message 5 621 (codes "hello") ∷ message 2 3 (codes "ok") ∷ []
unfolding receive all_calls tek_nap.Incoming.take_head tek_nap.Incoming.read_some
    tek_nap.Incoming.take_body tek_nap.Incoming.Message.keep tek_nap.Incoming.Message.joined
    tek_nap.Incoming.parsed tek_nap.Incoming.dget_clear_data tek_nap.Incoming.when_ready
    tek_nap.Incoming.do_server tek_nap.Incoming.deliver tek_nap.Incoming.dgets
    tek_nap.Incoming.after_head tek_nap.Incoming.head_part tek_nap.Incoming.renew
    tek_nap.Incoming.read_head tek_nap.Incoming.after_body tek_nap.Incoming.body_part
    tek_nap.Incoming.decode_head tek_nap.Incoming.word_of tek_nap.Incoming.fill
    tek_nap.Incoming.when_pending tek_nap.Incoming.read_body tek_nap.Incoming.finish_read
    tek_nap.Incoming.slurp tek_nap.Incoming.max_segments
talk_runs = refl

not_begun : Idle connected 32
not_begun = record { emptied = refl; no_head = refl; no_data = refl; room = refl; size_is = refl }

sound : All (Sound as_it_is 16 32) talk
unfolding tek_nap.Incoming.Message.joined
sound = (
  (
    record {
      texts = (omega arith, (omega arith, (omega arith, (omega arith, (omega arith, (tt))))));
      room = omega arith;
      half = omega arith;
      few = omega arith;
    },
    refl,
  ),
  (
    (
      record {
        texts = (omega arith, (omega arith, (tt)));
        room = omega arith;
        half = omega arith;
        few = omega arith;
      },
      refl,
    ),
    tt,
  ),
)

messages_in_order_example :
    (io' : MyIo) × (receive as_it_is 16 connected (all_calls talk)
      ≡ (map (delivered as_it_is) talk, io'))
    × Idle io' 32
messages_in_order_example = messages_in_order as_it_is 16 32 talk connected not_begun sound
