-- ===== src/Incoming/Stream.antt =====
-- source/newio.c and source/server.c: the messages that come over a connection, one after the other.
use tek_nap.Common.{
  ℕ, ◌+◌, ◌-◌, ◌*◌, ◌<◌, ◌≤◌, List, [], ◌∷◌, ◌++◌, Bytes, length, All, ◌≡◌, refl, sym, ap, ◌∙◌,
  subst, arith, length-append, append_assoc, append-nil, map,
}
use tek_nap.Incoming.{
  MyIo, Read, got, Answers, Delivery, nothing, hang_up, message, dget_clear_data, do_server,
}
use tek_nap.Incoming.Message.{
  Idle, filling, emptied_by, step_body, brings, more_to_come, last_here, keep, receive, Piece,
  bytes_of, joined, later_calls, do_server-filling, do_server-head,
}

-- What is delivered by a call and those behind it.
after_call : (ℕ → ℕ) → (buffersize : ℕ) → Delivery × MyIo → List Answers → List Delivery × MyIo
after_call order buffersize here calls =
    let later = receive order buffersize here.1 calls in (keep here.0 later.0, later.1)

-- The bounds within which a message of `len` bytes comes through in `count` pieces.
pub record Fitting (buffersize size : ℕ) (bytes : Bytes) (count : ℕ) : Type 0 where
  pub texts : All (λ c. 0 < c) bytes
  pub room : length bytes ≤ buffersize - 1
  pub half : length bytes + length bytes ≤ size
  pub few : count ≤ 17

module _ (order : ℕ → ℕ) (buffersize size : ℕ) (head : Bytes) (command : ℕ)
    (four : length head ≡ 4) where
  -- The message is delivered with the last piece.
  pieces-message :
      (h : Read) (part : Bytes) (j : ℕ) (p : Piece) (ps : List Piece)
      → Fitting buffersize size (part ++ joined (p ∷ ps)) (j + length (p ∷ ps))
      → (io : MyIo) × (after_call order buffersize
            (step_body buffersize
              (filling size head (length (part ++ joined (p ∷ ps))) command part j)
              (brings h (bytes_of p)))
            (later_calls ps)
          ≡ (message (length (part ++ joined (p ∷ ps))) command (part ++ joined (p ∷ ps)) ∷ [], io))
        × Idle io size
  unfolding after_call receive keep joined dget_clear_data
  pieces-message h part j p [] f =
      let bytes = part ++ (bytes_of p ++ []) in
      let e : part ++ bytes_of p ≡ bytes = ap (λ l. part ++ l) (sym (append-nil (bytes_of p))) in
      let l = length-append part (bytes_of p) in
      let le = ap length e in
      let half = f.half in
      (
        dget_clear_data (
            emptied_by size head (length bytes) command (part ++ bytes_of p) (j + 1)
              (0 + length (part ++ bytes_of p))),
        rw
            (last_here buffersize size head (length bytes) command h part j p.first p.others
              (ap length e) (omega arith) (subst (All (λ c. 0 < c)) (sym e) f.texts) f.room)
            (ap
              (λ s. (
                message (length bytes) command s ∷ [],
                dget_clear_data (
                    emptied_by size head (length bytes) command (part ++ bytes_of p) (j + 1)
                      (0 + length (part ++ bytes_of p))),
              ))
              e),
        record {
          emptied = omega (arith);
          no_head = refl;
          no_data = refl;
          room = four;
          size_is = refl;
        },
      )
  pieces-message h part j p (q ∷ qs) f =
      let bytes = part ++ joined (p ∷ q ∷ qs) in
      let part' = part ++ bytes_of p in
      let e : part' ++ joined (q ∷ qs) ≡ bytes = append_assoc part (bytes_of p) (joined (q ∷ qs)) in
      let le = ap length e in
      let l' = length-append part' (joined (q ∷ qs)) in
      let l = length-append part (bytes_of p) in
      let k = length-append (bytes_of q) (joined qs) in
      let half = f.half in
      let few = f.few in
      let f' : Fitting buffersize size (part' ++ joined (q ∷ qs)) ((j + 1) + length (q ∷ qs)) =
        record {
          texts = subst (All (λ c. 0 < c)) (sym e) f.texts;
          room = subst (λ s. length s ≤ buffersize - 1) (sym e) f.room;
          half = omega arith;
          few = omega arith;
        } in
      let (io, run, idle) = pieces-message Read.failed part' (j + 1) q qs f' in
      let run' =
        subst
          (λ s.
            after_call order buffersize
              (step_body buffersize (filling size head (length s) command part' (j + 1))
                (brings Read.failed (bytes_of q)))
              (later_calls qs)
            ≡ (message (length s) command s ∷ [], io))
          e run in
      let filled = filling size head (length bytes) command part' (j + 1) in
      let here =
        do_server-filling order buffersize size head (length bytes) command part' (j + 1)
          (brings Read.failed (bytes_of q)) (omega arith) (omega arith) in
      let tail : receive order buffersize filled (later_calls (q ∷ qs))
          ≡ (message (length bytes) command bytes ∷ [], io) =
        ap (λ d. after_call order buffersize d (later_calls qs)) here ∙ run' in
      let first =
        more_to_come buffersize size head (length bytes) command h part j p.first p.others
          (omega arith) (omega arith) (omega arith) in
      (io, ap (λ d. after_call order buffersize d (later_calls (q ∷ qs))) first ∙ tail, idle)

-- One message is put together from its pieces.
message_in_pieces :
    (order : ℕ → ℕ) (buffersize size a b c d : ℕ) (p : Piece) (ps : List Piece) (io : MyIo)
    → Idle io size
    → Fitting buffersize size (joined (p ∷ ps)) (length (p ∷ ps))
    → order (a + b * 256) ≡ length (joined (p ∷ ps))
    → (io' : MyIo) × (receive order buffersize io
          (brings (got (a ∷ b ∷ c ∷ d ∷ [])) (bytes_of p) ∷ later_calls ps)
        ≡ (message (length (joined (p ∷ ps))) (order (c + d * 256)) (joined (p ∷ ps)) ∷ [], io'))
      × Idle io' size
unfolding receive after_call
message_in_pieces order buffersize size a b c d p ps io i f e =
    let head = got (a ∷ b ∷ c ∷ d ∷ []) in
    let bytes = joined (p ∷ ps) in
    let (io', run, idle) =
      pieces-message order buffersize size (a ∷ b ∷ c ∷ d ∷ []) (order (c + d * 256)) refl head [] 0
        p ps
        (record { texts = f.texts; room = f.room; half = f.half; few = omega (arith, f.few) }) in
    let start = do_server-head order buffersize size a b c d (bytes_of p) io i in
    let state : ℕ → Delivery × MyIo = λ n.
      step_body buffersize (filling size (a ∷ b ∷ c ∷ d ∷ []) n (order (c + d * 256)) [] 0)
        (brings head (bytes_of p)) in
    (io', ap (λ r. after_call order buffersize r (later_calls ps)) (start ∙ ap state e) ∙ run, idle)

-- A message as it comes: the four bytes of its head, and the pieces of its text.
pub record Sent : Type 0 where
  pub low : ℕ
  pub high : ℕ
  pub command_low : ℕ
  pub command_high : ℕ
  pub piece : Piece
  pub pieces : List Piece

abbrev pub text_of : Sent → Bytes
text_of m = joined (m.piece ∷ m.pieces)

-- The calls of `do_server` for a message, one for each piece.
abbrev pub calls_of : Sent → List Answers
calls_of m =
    brings (got (m.low ∷ m.high ∷ m.command_low ∷ m.command_high ∷ [])) (bytes_of m.piece)
    ∷ later_calls m.pieces

unfoldable pub all_calls : List Sent → List Answers
all_calls [] = []
all_calls (m ∷ ms) = calls_of m ++ all_calls ms

-- The message that a call delivers for it.
abbrev pub delivered : (ℕ → ℕ) → Sent → Delivery
delivered order m =
    message (length (text_of m)) (order (m.command_low + m.command_high * 256)) (text_of m)

-- The text fits, and the head has its length.
abbrev pub Sound : (order : ℕ → ℕ) (buffersize size : ℕ) → Sent → Type 0
Sound order buffersize size m =
    Fitting buffersize size (text_of m) (length (m.piece ∷ m.pieces))
    × (order (m.low + m.high * 256) ≡ length (text_of m))

keep-append : (d : Delivery) (ds es : List Delivery) → keep d (ds ++ es) ≡ keep d ds ++ es
unfolding keep
keep-append nothing ds es = refl
keep-append hang_up ds es = refl
keep-append (message len command s) ds es = refl

-- What is delivered by some calls and those behind them.
abbrev and_then :
    (ℕ → ℕ) → (buffersize : ℕ) → List Delivery × MyIo → List Answers → List Delivery × MyIo
and_then order buffersize first calls =
    let later = receive order buffersize first.1 calls in (first.0 ++ later.0, later.1)

receive-append :
    (order : ℕ → ℕ) (buffersize : ℕ) (io : MyIo) (xs ys : List Answers)
    → receive order buffersize io (xs ++ ys)
      ≡ and_then order buffersize (receive order buffersize io xs) ys
unfolding receive
receive-append order buffersize io [] ys = refl
receive-append order buffersize io (a ∷ xs) ys =
    let here = do_server order buffersize io a in
    let rec = receive-append order buffersize here.1 xs ys in
    let first = receive order buffersize here.1 xs in
    let later = receive order buffersize first.1 ys in
    rw rec (ap (λ ds. (ds, later.1)) (keep-append here.0 first.0 later.0))

-- Messages that come one after the other at a connection where nothing is left of an earlier one,
-- each in 17 pieces at most: `do_server` is called once for each piece, the first call of a message
-- reads its head as a whole, and every call brings at least a byte of the text. No byte is NUL, the
-- length in the head is that of the text, and a text has room in the string of `dgets`, and twice in
-- the buffer. Then the messages are delivered in their order, each one whole with its length and its
-- command, nothing else is delivered, the connection is not closed, and nothing is left over.
pub messages_in_order :
    (order : ℕ → ℕ) (buffersize size : ℕ) (ms : List Sent) (io : MyIo)
    → Idle io size
    → All (Sound order buffersize size) ms
    → (io' : MyIo) × (receive order buffersize io (all_calls ms) ≡ (map (delivered order) ms, io'))
      × Idle io' size
unfolding all_calls receive
messages_in_order order buffersize size [] io i h = (io, refl, i)
messages_in_order order buffersize size (m ∷ ms) io i (h, hs) =
    let (io1, run, i1) =
      message_in_pieces order buffersize size m.low m.high m.command_low m.command_high m.piece
        m.pieces io i h.0 h.1 in
    let (io2, rest, i2) = messages_in_order order buffersize size ms io1 i1 hs in
    (
      io2,
      receive-append order buffersize io (calls_of m) (all_calls ms)
          ∙ ap (λ first. and_then order buffersize first (all_calls ms)) run
          ∙ ap (λ later. (delivered order m ∷ later.0, later.1)) rest,
      i2,
    )
