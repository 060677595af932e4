-- ===== src/Incoming.antt =====
-- source/newio.c and source/server.c: the messages of a Napster server, put together from what the
-- reads of its socket bring. What the system answers to the calls is an argument, and so is `order`,
-- which is `ntohs` where `set_capability` is on and changes nothing where it is off.
pub mod Message
pub mod Stream
use tek_nap.Common.{
  ℕ, zero, suc, ◌+◌, ◌-◌, ◌*◌, List, [], ◌∷◌, ◌++◌, Bytes, Bool, true, false, not, ◌==◌,
  if◌then◌else◌, ltb, leb, length, get_or, take, drop, Option, none, some,
}
use tek_nap.Common.Int.{ℤ, pos, negsuc}

-- `MyIO`, with `data` in two fields; `buffer` has the `write_pos` bytes that were read.
pub record MyIo : Type 0 where
  pub buffer : Bytes
  pub databuffer : Bytes
  pub data_read : ℕ
  pub buffer_size : ℕ
  pub read_pos : ℕ
  pub write_pos : ℕ
  pub segments : ℕ
  pub len : ℕ
  pub command : ℕ

-- What `read` brings: bytes, the end of the stream, or an error.
pub data Read : Type 0 where
  got : Bytes → Read
  closed : Read
  failed : Read

-- The system's answers during one call: to the read of the head, to `FIONREAD`, where `none` is an
-- error, to `select`, where `none` is an error, and to the read of the rest.
pub record Answers : Type 0 where
  pub head : Read
  pub pending : Option ℕ
  pub ready : Option Bool
  pub body : Read

-- A part of `dgets` returns, or goes on.
pub data Step : Type 0 where
  stop : ℤ → MyIo → Step
  go : MyIo → Step

unfoldable pub max_segments : ℕ
max_segments = 16

-- The branch for a buffer that was read to its end.
unfoldable pub renew : MyIo → MyIo
renew io =
    if io.read_pos == io.write_pos
    then record io { buffer = []; read_pos = 0; write_pos = 0; segments = 0 }
    else io

-- `databuffer[0] + ((databuffer[1] << 8) & 0xff00)`
unfoldable pub word_of : Bytes → (i : ℕ) → ℕ
word_of s i = get_or s i 0 + get_or s (i + 1) 0 * 256

-- The bytes of a read go into the block at an offset.
unfoldable pub fill : Bytes → (at : ℕ) → Bytes → Bytes
fill block at s = take at block ++ (s ++ drop (at + length s) block)

-- The head is there: `len` and `command` are set.
unfoldable pub decode_head : (ℕ → ℕ) → MyIo → MyIo
decode_head order io = record io {
  data_read = 0;
  len = order (word_of io.databuffer 0);
  command = order (word_of io.databuffer 2);
}

-- `read` of `n` bytes at most, where the answer has what can be read.
unfoldable pub read_some : ℕ → Read → Read
read_some n closed = closed
read_some n failed = failed
read_some n (got s) = got (take n s)

-- The tests of what `read` returned for the head.
unfoldable pub take_head : (ℕ → ℕ) → MyIo → Read → Step
take_head order io closed = stop (negsuc 0) io
take_head order io failed = stop (negsuc 1) io
take_head order io (got s) =
    let filled = fill io.databuffer io.data_read s in
    if length s == 0
    then stop (negsuc 0) io
    else if length s == 4 - io.data_read
    then go (decode_head order (record io { databuffer = filled }))
    else stop (negsuc 1) (record io { databuffer = filled; data_read = length s })

unfoldable pub read_head : (ℕ → ℕ) → MyIo → Read → Step
read_head order io answer = take_head order io (read_some (4 - io.data_read) answer)

-- The tests of what `read` returned for the rest, and where the bytes go.
unfoldable pub take_body : MyIo → Read → Step
take_body io closed = stop (negsuc 0) io
take_body io failed = stop (negsuc 0) io
take_body io (got []) = stop (negsuc 0) io
take_body io (got (c ∷ s)) = go (record io {
  buffer = take io.write_pos io.buffer ++ (c ∷ s);
  write_pos = io.write_pos + length (c ∷ s);
  segments = io.segments + 1;
})

-- The read of what is missing; there is never more in the buffer than the length of the message.
unfoldable pub read_body : MyIo → Read → Step
read_body io answer = take_body io (read_some (io.len - io.write_pos) answer)

-- The branch where nothing is pending, on the result of `select`.
unfoldable pub when_ready : MyIo → Option Bool → Read → Step
when_ready io none body = stop (negsuc 0) io
when_ready io (some false) body = stop (pos 0) io
when_ready io (some true) body = read_body io body

unfoldable pub when_pending : MyIo → Option ℕ → Answers → Step
when_pending io none a = stop (negsuc 0) io
when_pending io (some zero) a = when_ready io a.ready a.body
when_pending io (some (suc n)) a = read_body io a.body

-- `if (ioe->data.len)`
unfoldable pub body_part : MyIo → Answers → Step
body_part io a =
    if io.len == 0
    then go io
    else if leb io.buffer_size (io.write_pos + io.len)
    then stop (negsuc 0) io
    else when_pending io a.pending a

-- The loop that copies into `str`, which has room for `room` bytes: the copy, and how many were read.
unfoldable pub slurp : Bytes → (room : ℕ) → Bytes × ℕ
slurp [] room = ([], 0)
slurp (c ∷ s) room =
    let more = slurp s (room - 1) in
    if c == 0 then ([], 1) else if leb room 1 then (c ∷ [], 1) else (c ∷ more.0, suc more.1)

-- The result of `dgets`, the string that it leaves and the new state.
pub record Got : Type 0 where
  pub junk : ℤ
  pub str : Bytes
  pub io : MyIo

-- The part of `dgets` behind the reads.
unfoldable pub finish_read : (buffersize : ℕ) → MyIo → Got
unfolding max_segments
finish_read buffersize io =
    let copy = slurp (drop io.read_pos io.buffer) (buffersize - 1) in
    if not (io.len == io.write_pos)
    then record {
      junk = if ltb max_segments io.segments then negsuc 0 else pos 0;
      str = [];
      io = io;
    }
    else record {
      junk = pos (length copy.0);
      str = copy.0;
      io = record io { read_pos = io.read_pos + copy.1 };
    }

unfoldable pub after_body : (buffersize : ℕ) → Step → Got
after_body buffersize (stop junk io) = record { junk = junk; str = []; io = io }
after_body buffersize (go io) = finish_read buffersize io

unfoldable pub after_head : (buffersize : ℕ) → Answers → Step → Got
after_head buffersize a (stop junk io) = record { junk = junk; str = []; io = io }
after_head buffersize a (go io) = after_body buffersize (body_part io a)

unfoldable pub head_part : (ℕ → ℕ) → MyIo → Answers → Step
head_part order io a = if io.len == 0 then read_head order io a.head else go io

unfoldable pub dgets : (ℕ → ℕ) → (buffersize : ℕ) → MyIo → Answers → Got
dgets order buffersize io a = after_head buffersize a (head_part order (renew io) a)

-- What `do_server` does with the result: nothing, closing the connection, or `parse_server`.
pub data Delivery : Type 0 where
  nothing : Delivery
  hang_up : Delivery
  message : (len command : ℕ) → Bytes → Delivery

-- `dget_clear_data`
unfoldable pub dget_clear_data : MyIo → MyIo
dget_clear_data io = record io { len = 0; command = 0 }

unfoldable pub parsed : Got → Delivery × MyIo
parsed g = (message g.io.len g.io.command g.str, dget_clear_data g.io)

-- The `switch` on the result.
unfoldable pub deliver : Got → ℤ → Delivery × MyIo
deliver g (negsuc zero) = (hang_up, g.io)
deliver g (negsuc (suc n)) = (nothing, g.io)
deliver g (pos zero) = if not (g.io.len == 0) then (nothing, g.io) else parsed g
deliver g (pos (suc n)) = parsed g

unfoldable pub do_server : (ℕ → ℕ) → (buffersize : ℕ) → MyIo → Answers → Delivery × MyIo
do_server order buffersize io a = let g = dgets order buffersize io a in deliver g g.junk
