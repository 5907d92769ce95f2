-- ===== src/CsvReader.antt =====
-- src/readCSV.cpp. The stream is the bytes that are left. `EOF` is the byte 255: a `char` that holds
-- it is equal to the constant, and so is `c` at the end of the stream. `line` and `pos`, which only
-- error messages show, are left out.
pub mod Quoted
pub mod Endings
pub mod Steps
pub mod Fields
pub mod Lines
pub mod Files
pub mod Written
pub mod RoundTrip
pub mod Open
pub mod TooMany
mod Checks
pub mod Tests
use brenlib.Prelude.{
  ℕ, ◌+◌, ◌-◌, ◌^◌, zero, suc, Bool, true, false, not, ◌&&◌, ◌||◌, ltb, leb, ◌==◌, if◌then◌else◌,
  List, [], ◌∷◌, ◌++◌, length, Result, ok, err, Error, out_of_range, runtime_error, ◌>>=◌, ◌>>◌,
  fcet,
}
use brenlib.Prelude.Text.{Text}
use brenlib.Table.{Table, put, set_columns}
use brenlib.Table

-- last_e
pub data Last : Type 0 where
  begin_quote end_quote field_data separator start_of_record : Last

-- The local variables of `readCSV`.
pub record Reader : Type 0 where
  pub t : Table Text
  pub h : List Text
  pub reading_header : Bool
  pub quoted : Bool
  pub f : Text
  pub col : ℕ
  pub row : ℕ
  pub last : Last

abbrev pub eof : ℕ
eof = 255

abbrev pub start : Reader
start = record {
  t = Table.create;
  h = [];
  reading_header = true;
  quoted = false;
  f = [];
  col = 0;
  row = 0;
  last = start_of_record;
}

-- How an iteration goes on: with the next byte; with the byte after a swallowed one; or not at
-- all, as the table is returned. `peek` at the end of the stream ends the loop, too.
pub data Next : Type 0 where
  onward : Reader → Next
  swallow : Reader → Next
  finished : Table Text → Next

-- `fieldReady`
pub field_ready : Reader → Result Reader
field_ready s =
    if s.reading_header
    then ok (record s { h = s.h ++ s.f ∷ []; f = [] })
    else put [] s.t s.col s.row s.f >>= λ t'. ok (record s { t = t'; f = [] })

-- The loop that stores the header, from column `c` on.
pub store_header : Table Text → ℕ → List Text → Result (Table Text)
store_header t c [] = ok t
store_header t c (n ∷ ns) = put [] t c 0 n >>= λ t'. store_header t' (c + 1) ns

-- The end of the header line.
pub header_ready : Reader → Result Reader
unfolding store_header
header_ready s = do
  fcet (not (length s.h == 0)) runtime_error
  fcet (ltb (length s.h) 65535) out_of_range
  sized ← set_columns s.t (length s.h)
  t' ← store_header sized 0 s.h
  ok (record s { t = t'; h = []; row = 1; col = 0; reading_header = false })

-- Is the field count test passed? `f` is the field after `fieldReady`.
pub count_is_right : Reader → Bool
count_is_right s = not (ltb 0 s.col && (not (length s.f == 0) && not (s.col == s.t.cols_ - 1)))

-- The end of a line of data.
pub record_ready : Reader → Result Reader
unfolding count_is_right
record_ready s = do
  fcet (count_is_right s) runtime_error
  fcet (not (s.row == 2 ^ 32 - 1)) runtime_error
  ok (record s { col = 0; row = s.row + 1 })

-- An end of record after a field.
pub end_record : Reader → Result Reader
unfolding field_ready
end_record s = do
  s' ← field_ready s
  s'' ← if s'.reading_header then header_ready s' else record_ready s'
  ok (record s'' { last = start_of_record })

abbrev pub next_is : ℕ → Text → Bool
next_is c [] = false
next_is c (d ∷ ds) = c == d

abbrev pub at_end : Text → Bool
at_end [] = true
at_end (d ∷ ds) = false

abbrev tail_of : Text → Text
tail_of [] = []
tail_of (d ∷ ds) = ds

-- The loop ends here if the stream has been looked at past its last byte.
abbrev pub after_peek : Reader → Text → Next
after_peek s rest = if at_end rest then finished s.t else onward s

abbrev push : ℕ → Reader → Reader
push c s = record s { f = s.f ++ c ∷ []; last = field_data }

-- The switch for a quoted field.
pub read_quoted : Reader → ℕ → Text → Result Next
read_quoted s c rest =
    if c == eof
    then err runtime_error
    else if c == 13
    then (if next_is 10 rest
        then ok (swallow (push 10 (push 13 s)))
        else ok (after_peek (push 13 s) rest))
    else if c == b'"'
    then (if next_is b'"' rest
        then ok (swallow (push b'"' s))
        else ok (after_peek (record s { quoted = false; last = end_quote }) rest))
    else ok (onward (push c s))

abbrev onward_or_end : Bool → Bool → Text → Reader → Next
onward_or_end true looked rest s = swallow s
onward_or_end false true rest s = after_peek s rest
onward_or_end false false rest s = onward s

-- An end of record outside quotes.
pub read_end : Reader → ℕ → Text → Result Next
unfolding end_record
read_end s c rest =
    let both = (c == 13) && next_is 10 rest in
    let left = if both then tail_of rest else rest in
    elim (s.last) [
      | begin_quote ↦ err runtime_error
      | start_of_record ↦ if at_end left then ok (finished s.t) else err runtime_error
      | _ ↦ end_record s >>= λ s'. ok (onward_or_end both (c == 13) rest s')
    ]

-- A quote outside quotes.
pub read_quote : Reader → Result Next
read_quote s = elim (s.last) [
  | begin_quote ↦ err runtime_error
  | end_quote ↦ err runtime_error
  | field_data ↦ ok (onward (record s { f = s.f ++ b'"' ∷ [] }))
  | _ ↦ ok (onward (record s { quoted = true; f = [] }))
]

-- A separator.
pub read_separator : Reader → Result Next
unfolding field_ready
read_separator s = do
  ready ← field_ready s
  if s.reading_header
      then ok (onward (record ready { last = separator }))
      else if leb (ready.t.cols_ - 1) s.col
      then err runtime_error
      else ok (onward (record ready { last = separator; col = s.col + 1 }))

-- Is nothing of the header stored yet?
pub before_header : Reader → Bool
before_header s =
    s.reading_header
    && (elim (s.last) [ start_of_record ↦ true | _ ↦ false ] && ((s.col == 0) && (s.row == 0)))

-- The test for 8-bit characters before the header.
pub skips : Reader → ℕ → Bool
skips s c = before_header s && (not (c == eof) && leb 128 c)

-- One iteration, on the byte `c`, with `rest` behind it.
pub iterate : ℕ → Reader → ℕ → Text → Result Next
unfolding before_header skips read_quoted read_end read_quote read_separator
iterate sep s c rest =
    if skips s c
    then ok (onward s)
    else if s.quoted
    then read_quoted s c rest
    else if (c == 13) || ((c == 10) || (c == eof))
    then read_end s c rest
    else if c == b'"'
    then read_quote s
    else if c == sep
    then read_separator s
    else ok (onward (push c s))

abbrev last_table : Next → Table Text
last_table (onward s) = s.t
last_table (swallow s) = s.t
last_table (finished t) = t

-- The loop. At the end of the stream `c` becomes EOF, and the iteration is the last one.
pub read_loop : ℕ → Reader → Text → Result (Table Text)
unfolding iterate
read_loop sep s [] = iterate sep s eof [] >>= λ n. ok (last_table n)
read_loop sep s (c ∷ []) = iterate sep s c [] >>= λ n. elim n [
  | onward s' ↦ read_loop sep s' []
  | swallow s' ↦ read_loop sep s' []
  | finished t ↦ ok t
]
read_loop sep s (c ∷ d ∷ rest) = iterate sep s c (d ∷ rest) >>= λ n. elim n [
  | onward s' ↦ read_loop sep s' (d ∷ rest)
  | swallow s' ↦ read_loop sep s' rest
  | finished t ↦ ok t
]

-- `readCSV`
pub read_csv : ℕ → Text → Result (Table Text)
unfolding read_loop
read_csv sep bytes = read_loop sep start bytes
