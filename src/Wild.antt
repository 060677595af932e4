-- ===== src/Wild.antt =====
-- source/reg.c: wildcard patterns. `*` stands for any run of characters, `%` for a run without
-- spaces, `?` for one character, and a backslash quotes.
pub mod Matches
pub mod Loop
pub mod Stars
pub mod Rounds
pub mod Steps
pub mod Decides
pub mod Sets
use tek_nap.Common.{
  ℕ, zero, suc, ◌+◌, [], ◌∷◌, ◌++◌, ◌==◌, if◌then◌else◌, Bytes, Bool, true, false, ◌&&◌, ◌||◌,
  Option, none, some, leb,
}

-- The standard library's `tolower`, in the C locale.
unfoldable pub tolower : ℕ → ℕ
tolower c = if leb b'A' c && leb c b'Z' then c + 32 else c

-- `*p`: the first byte, or the NUL at the end.
abbrev pub deref : Bytes → ℕ
deref [] = 0
deref (c ∷ s) = c

-- `p + 1`
abbrev pub step_on : Bytes → Bytes
step_on [] = []
step_on (c ∷ s) = s

abbrev pub backslash : ℕ
backslash = 92

-- The local variables of `new_match`.
pub record State : Type 0 where
  pub pattern_at : Bytes
  pub string_at : Bytes
  pub count : ℕ
  pub asterisk : Bool
  pub percent : Bool
  pub last_asterisk_point : Option Bytes
  pub last_percent_point : Option Bytes
  pub last_asterisk_count : ℕ
  pub last_percent_count : ℕ
  pub after_wildcard : Bytes

-- What one round of the loop does: it returns, or goes on.
pub data Round : Type 0 where
  return : ℕ → Round
  continue : State → Round

-- Whether the characters that the pointers show are the same letter.
abbrev pub same_letter : Bytes → Bytes → Bool
same_letter p s = tolower (deref s) == tolower (deref p)

-- The round while an asterisk looks for the character behind it.
unfoldable pub asterisk_round : State → Round
asterisk_round t =
    if deref t.string_at == 0
    then return 0
    else if deref t.pattern_at == backslash
    then continue (record t { pattern_at = step_on t.pattern_at })
    else if deref t.pattern_at == b'?' || same_letter t.pattern_at t.string_at
    then continue (record t {
      asterisk = false;
      last_asterisk_point = some t.string_at;
      last_asterisk_count = t.count;
    })
    else continue (record t { string_at = step_on t.string_at })

-- The round behind the step over a backslash, while a percent looks for the next character.
percent_find : State → Round
percent_find t =
    if deref t.string_at == 32
    then continue (record t { percent = false; last_percent_point = none })
    else if same_letter t.pattern_at t.string_at
    then continue (record t {
      percent = false;
      last_percent_point = some t.string_at;
      last_percent_count = t.count;
    })
    else continue (record t { string_at = step_on t.string_at })

-- `if (*pattern == '\\') { pattern++; if (…differ…) continue; }` of the percent's round.
percent_quoted : State → Round
percent_quoted t = if same_letter t.pattern_at t.string_at then percent_find t else continue t

unfoldable pub percent_round : State → Round
unfolding percent_find percent_quoted
percent_round t =
    if deref t.string_at == 0
    then return (if deref t.pattern_at == 0 then t.count else 0)
    else if deref t.pattern_at == backslash
    then percent_quoted (record t { pattern_at = step_on t.pattern_at })
    else percent_find t

is_wildcard : ℕ → Bool
is_wildcard c = c == b'*' || c == b'%'

-- The `do` loop over a row of wildcards: whether one was an asterisk, and the pattern behind them.
unfoldable pub skip_wildcards : Bytes → Bool × Bytes
unfolding is_wildcard
skip_wildcards [] = (false, [])
skip_wildcards (c ∷ p) =
    let more = skip_wildcards p in
    if is_wildcard c then (c == b'*' || more.0, more.1) else (false, c ∷ p)

-- `case ('*'): case ('%'):`
wildcard_round : State → Bool × Bytes → Round
wildcard_round t (true, p) =
    if deref p == 0
    then return t.count
    else continue (record t {
      pattern_at = p;
      after_wildcard = p;
      asterisk = true;
      percent = false;
      last_asterisk_point = some t.string_at;
      last_asterisk_count = t.count;
    })
wildcard_round t (false, p) = continue (record t {
  pattern_at = p;
  after_wildcard = p;
  asterisk = false;
  percent = true;
  last_percent_point = some t.string_at;
  last_percent_count = t.count;
})

-- `case ('?'):`
question_round : State → Round
question_round t =
    if deref t.string_at == 0
    then return 0
    else continue (record t { pattern_at = step_on t.pattern_at; string_at = step_on t.string_at })

-- `case ('\\'):`, with the pattern behind the backslash.
quoted_round : State → Bytes → Round
quoted_round t p =
    if deref p == 0
    then return 0
    else if same_letter p t.string_at
    then continue
        (record t { pattern_at = step_on p; string_at = step_on t.string_at; count = t.count + 1 })
    else return 0

-- The mismatch of a regular character: back to the last wildcard, if there was one.
retry_round : State → Option Bytes → Option Bytes → Round
retry_round t (some s) last_percent = continue (record t {
  asterisk = true;
  string_at = step_on s;
  pattern_at = t.after_wildcard;
  count = t.last_asterisk_count;
})
retry_round t none (some s) = continue (record t {
  percent = true;
  string_at = step_on s;
  pattern_at = t.after_wildcard;
  count = t.last_percent_count;
})
retry_round t none none = return 0

-- `default:`
regular_round : State → Round
unfolding retry_round
regular_round t =
    if deref t.pattern_at == 0 && deref t.string_at == 0
    then return t.count
    else if same_letter t.pattern_at t.string_at
    then continue (record t {
      pattern_at = step_on t.pattern_at;
      string_at = step_on t.string_at;
      count = t.count + 1;
    })
    else retry_round t t.last_asterisk_point t.last_percent_point

unfoldable pub switch_round : State → Round
unfolding wildcard_round question_round quoted_round regular_round is_wildcard
switch_round t =
    let c = deref t.pattern_at in
    if is_wildcard c
    then wildcard_round t (skip_wildcards t.pattern_at)
    else if c == b'?'
    then question_round t
    else if c == backslash
    then quoted_round t (step_on t.pattern_at)
    else regular_round t

unfoldable pub round : State → Round
unfolding asterisk_round percent_round switch_round skip_wildcards tolower
round t =
    if t.asterisk then asterisk_round t else if t.percent then percent_round t else switch_round t

-- The loop. After `limit` rounds it gives up: the check of `sanity`.
unfoldable pub rounds : ℕ → State → ℕ
rounds zero t = 0
rounds (suc limit) t = elim (round t) [ return n ↦ n | continue t' ↦ rounds limit t' ]

abbrev pub start : Bytes → Bytes → State
start pattern string = record {
  pattern_at = pattern;
  string_at = string;
  count = 1;
  asterisk = false;
  percent = false;
  last_asterisk_point = none;
  last_percent_point = none;
  last_asterisk_count = 0;
  last_percent_count = 0;
  after_wildcard = [];
}

pub sanity_limit : ℕ
sanity_limit = 100001

unfoldable pub new_match : Bytes → Bytes → ℕ
unfolding rounds round sanity_limit
new_match pattern string = rounds sanity_limit (start pattern string)
