-- ===== src/Incoming/Message.antt =====
-- source/newio.c: a message that comes in pieces is put together again.
use tek_nap.Common.{
  ℕ, zero, suc, ◌+◌, ◌-◌, ◌*◌, ◌<◌, ◌≤◌, List, [], ◌∷◌, ◌++◌, Bytes, true, false, ◌==◌, ltb, leb,
  length, drop, All, none, some, ◌≡◌, refl, sym, ap, ◌∙◌, arith, length-append, take-all,
  Bool-cases, inl, inr, ==_refl, map,
}
use tek_nap.Common.Int.{pos}
use tek_nap.Incoming.{
  read_some, take_head, take_body, MyIo, Read, got, Answers, go, max_segments, renew, word_of, fill,
  decode_head, read_head, read_body, when_pending, body_part, slurp, Got, finish_read, after_body,
  after_head, head_part, dgets, Delivery, nothing, hang_up, message, dget_clear_data, parsed,
  deliver, do_server,
}

-- What the buffer of a connection needs to be.
pub record Idle (io : MyIo) (size : ℕ) : Type 0 where
  pub emptied : io.read_pos ≡ io.write_pos
  pub no_head : io.data_read ≡ 0
  pub no_data : io.len ≡ 0
  pub room : length io.databuffer ≡ 4
  pub size_is : io.buffer_size ≡ size

-- The state once the head is there and the bytes `part` have come in `j` reads.
abbrev pub filling : (size : ℕ) (head : Bytes) (len command : ℕ) (part : Bytes) (j : ℕ) → MyIo
filling size head len command part j = record {
  buffer = part;
  databuffer = head;
  data_read = 0;
  buffer_size = size;
  read_pos = 0;
  write_pos = length part;
  segments = j;
  len = len;
  command = command;
}

-- The state behind the message, before its data is cleared.
abbrev pub emptied_by : (size : ℕ) (head : Bytes) (len command : ℕ) (part : Bytes) (j n : ℕ) → MyIo
emptied_by size head len command part j n = record (filling size head len command part j) {
  read_pos = n;
}

pub slurp-whole :
    (s : Bytes) (room : ℕ) → All (λ c. 0 < c) s → length s ≤ room → slurp s room ≡ (s, length s)
unfolding slurp
slurp-whole [] room h l = refl
slurp-whole (c ∷ []) room (h, hs) l =
    let f : (c == 0) ≡ false = ground arith in
    elim (Bool-cases (leb room 1)) [ inl z ↦ rw (f, z) | inr z ↦ rw (f, z) ]
slurp-whole (c ∷ d ∷ s) room (h, hs) l =
    let f : (c == 0) ≡ false = ground arith in
    let g : leb room 1 ≡ false = ground arith in
    let r = slurp-whole (d ∷ s) (room - 1) hs (omega arith) in rw (f, g, r) refl

positive : (n : ℕ) → 0 < n → (g : Got) → deliver g (pos n) ≡ parsed g
unfolding deliver
positive zero h g = absurd (omega arith)
positive (suc n) h g = refl

-- What a call does once the head is there.
pub step_body : (buffersize : ℕ) → MyIo → Answers → Delivery × MyIo
step_body buffersize io a = let g = after_body buffersize (body_part io a) in deliver g g.junk

-- An answer with some bytes of the body.
abbrev pub brings : Read → Bytes → Answers
brings head s = record { head = head; pending = some (length s); ready = none; body = got s }

module _ (buffersize size : ℕ) (head : Bytes) (len command : ℕ) where
  body_filling :
      (h : Read) (part : Bytes) (j c : ℕ) (s : Bytes)
      → length part + length (c ∷ s) ≤ len
      → length part + len < size
      → body_part (filling size head len command part j) (brings h (c ∷ s))
        ≡ go (record (filling size head len command (part ++ (c ∷ s)) (j + 1)) {
          write_pos = length part + length (c ∷ s);
        })
  unfolding body_part when_pending read_body read_some take_body
  body_filling h part j c s p l =
      let f : (len == 0) ≡ false = ground arith in
      let g : leb size (length part + len) ≡ false = ground arith in
      rw
        (
          f,
          g,
          take-all (len - length part) (c ∷ s) (omega arith),
          take-all (length part) part (omega arith),
        )
        refl

  body_filling' :
      (h : Read) (part : Bytes) (j c : ℕ) (s : Bytes)
      → length part + length (c ∷ s) ≤ len
      → length part + len < size
      → body_part (filling size head len command part j) (brings h (c ∷ s))
        ≡ go (filling size head len command (part ++ (c ∷ s)) (j + 1))
  body_filling' h part j c s p l =
      body_filling h part j c s p l
      ∙ ap
          (λ w.
            go (record (filling size head len command (part ++ (c ∷ s)) (j + 1)) { write_pos = w }))
          (sym (length-append part (c ∷ s)))

  pub more_to_come :
      (h : Read) (part : Bytes) (j c : ℕ) (s : Bytes)
      → length (part ++ (c ∷ s)) < len
      → length part + len < size
      → j < 16
      → step_body buffersize (filling size head len command part j) (brings h (c ∷ s))
        ≡ (nothing, filling size head len command (part ++ (c ∷ s)) (j + 1))
  unfolding step_body after_body finish_read deliver max_segments
  more_to_come h part j c s lt l jl =
      let f : (len == length (part ++ (c ∷ s))) ≡ false = ground arith in
      let g : ltb 16 (j + 1) ≡ false = ground arith in
      let e : (len == 0) ≡ false = ground arith in
      let k = length-append part (c ∷ s) in
      rw (body_filling' h part j c s (omega arith) l, f, g, e) refl

  pub last_here :
      (h : Read) (part : Bytes) (j c : ℕ) (s : Bytes)
      → length (part ++ (c ∷ s)) ≡ len
      → length part + len < size
      → All (λ c. 0 < c) (part ++ (c ∷ s))
      → len ≤ buffersize - 1
      → step_body buffersize (filling size head len command part j) (brings h (c ∷ s)) ≡ (
        message len command (part ++ (c ∷ s)),
        dget_clear_data (
            emptied_by size head len command
              (part ++ (c ∷ s))
              (j + 1)
              (0 + length (part ++ (c ∷ s)))),
      )
  unfolding step_body after_body finish_read deliver parsed
  last_here h part j c s e l t b =
      let all = part ++ (c ∷ s) in
      let p : length part + length (c ∷ s) ≤ len =
        (let k = length-append part (c ∷ s) in omega arith) in
      let f : (len == length all) ≡ true = ap (λ n. len == n) e ∙ ==_refl len in
      let copy = slurp-whole all (buffersize - 1) t (omega arith) in
      rw (body_filling' h part j c s p l, f, copy)
        (positive (length all) (omega arith) (record {
          junk = pos (length all);
          str = all;
          io = emptied_by size head len command all (j + 1) (0 + length all);
        }))

-- The calls of `do_server` one after the other, and what they delivered.
unfoldable pub keep : Delivery → List Delivery → List Delivery
keep nothing ds = ds
keep hang_up ds = hang_up ∷ ds
keep (message len command s) ds = message len command s ∷ ds

unfoldable pub receive : (ℕ → ℕ) → (buffersize : ℕ) → MyIo → List Answers → List Delivery × MyIo
unfolding keep
receive order buffersize io [] = ([], io)
receive order buffersize io (a ∷ rest) =
    let here = do_server order buffersize io a in
    let later = receive order buffersize here.1 rest in (keep here.0 later.0, later.1)

-- A piece of a message is not empty.
pub record Piece : Type 0 where
  pub first : ℕ
  pub others : Bytes

abbrev pub bytes_of : Piece → Bytes
bytes_of p = p.first ∷ p.others

unfoldable pub joined : List Piece → Bytes
joined [] = []
joined (p ∷ ps) = bytes_of p ++ joined ps

-- The later calls bring a piece each.
abbrev pub later_calls : List Piece → List Answers
later_calls = map (λ p. brings Read.failed (bytes_of p))

drop_all : (n : ℕ) (s : Bytes) → length s ≡ n → drop n s ≡ []
drop_all zero [] h = refl
drop_all zero (c ∷ s) h = absurd (omega arith)
drop_all (suc n) [] h = refl
drop_all (suc n) (c ∷ s) h = drop_all n s (omega arith)

-- A call that finds the head there goes on with the body.
pub do_server-filling :
    (order : ℕ → ℕ) (buffersize size : ℕ) (head : Bytes) (len command : ℕ) (part : Bytes) (j : ℕ)
    (a : Answers)
    → 0 < len
    → 0 < length part
    → do_server order buffersize (filling size head len command part j) a
      ≡ step_body buffersize (filling size head len command part j) a
unfolding do_server dgets after_head head_part renew step_body
do_server-filling order buffersize size head len command part j a p q =
    let f : (0 == length part) ≡ false = ground arith in
    let g : (len == 0) ≡ false = ground arith in rw (f, g) refl

-- The call that brings the whole head goes on with the body.
pub do_server-head :
    (order : ℕ → ℕ) (buffersize size : ℕ) (a b c d : ℕ) (s : Bytes) (io : MyIo)
    → Idle io size
    → do_server order buffersize io (brings (got (a ∷ b ∷ c ∷ d ∷ [])) s)
      ≡ step_body buffersize
          (filling size (a ∷ b ∷ c ∷ d ∷ []) (order (a + b * 256)) (order (c + d * 256)) [] 0)
          (brings (got (a ∷ b ∷ c ∷ d ∷ [])) s)
unfolding do_server dgets after_head head_part renew step_body read_head read_some take_head
    decode_head word_of fill
do_server-head order buffersize size a b c d s io i =
    let f : (io.read_pos == io.write_pos) ≡ true =
      ap (λ n. n == io.write_pos) i.emptied ∙ ==_refl io.write_pos in
    let e : drop 4 io.databuffer ≡ [] = drop_all 4 io.databuffer i.room in
    rw (f, i.no_data, i.no_head, e, i.size_is) refl
