-- ===== src/CsvReader/Quoted.antt =====
-- How src/readCSV.cpp reads a quoted field.
use mathlib.Core.List.{append_assoc, append-nil}
use brenlib.Prelude.{
  ℕ, ◌<◌, Bool, true, false, ◌&&◌, ◌==◌, if◌then◌else◌, [], ◌∷◌, ◌++◌, Result, ok, ◌>>=◌, ◌≡◌, ◌≢◌,
  refl, arith, All, Bool-cases, inl, inr, ◌∙◌, sym, ap, ==_iff,
}
use brenlib.Prelude.Text.{Text}
use brenlib.Table.{Table}
use brenlib.CsvWriter.{double_quote}
use brenlib.CsvReader.{
  end_quote, Reader, Next, onward, swallow, finished, next_is, at_end, tail_of, after_peek, push,
  before_header, skips, iterate, read_loop,
}

-- The loop after an iteration.
unfoldable pub resume : ℕ → Text → Next → Result (Table Text)
resume sep rest (onward s) = read_loop sep s rest
resume sep rest (swallow s) = read_loop sep s (tail_of rest)
resume sep rest (finished t) = ok t

pub read_loop-cons :
    (sep : ℕ) (s : Reader) (c : ℕ) (rest : Text)
    → read_loop sep s (c ∷ rest) ≡ (iterate sep s c rest >>= resume sep rest)
unfolding read_loop resume
read_loop-cons sep s c [] = ground arith
read_loop-cons sep s c (d ∷ rest) = ground arith

module _ (sep : ℕ) (s : Reader) (quoted : s.quoted ≡ true) where
  iterate_plain :
      (c : ℕ) (rest : Text)
      → skips s c ≡ false
      → c < 255
      → c ≢ 13
      → c ≢ b'"'
      → iterate sep s c rest ≡ ok (onward (push c s))
  unfolding iterate
  iterate_plain c rest k h n m = ground arith

  pub iterate_cr :
      (rest : Text)
      → iterate sep s 13 rest
        ≡ ok
            (if next_is 10 rest then swallow (push 10 (push 13 s)) else after_peek (push 13 s) rest)
  unfolding iterate
  iterate_cr rest = ground arith

  iterate_quote :
      (rest : Text)
      → iterate sep s b'"' rest
        ≡ ok (
            if next_is b'"' rest
            then swallow (push b'"' s)
            else after_peek (record s { quoted = false; last = end_quote }) rest)
  unfolding iterate
  iterate_quote rest = ground arith

-- The first byte of a field is not passed over as one before the header.
abbrev pub Kept : Reader → Text → Type 0
Kept s [] = Unit {0}
Kept s (c ∷ cs) = skips s c ≡ false

pub Kept-push : (c : ℕ) (s : Reader) (cs : Text) → Kept (push c s) cs
unfolding skips before_header
Kept-push c s [] = tt
Kept-push c s (d ∷ ds) = ground arith

pub skips-quote : (s : Reader) → skips s b'"' ≡ false
unfolding skips
skips-quote s = ground arith

-- The byte behind a line feed decides nothing; that behind a carriage return may be swallowed.
at_end-double_quote : (cs rest : Text) → at_end (double_quote cs ++ b'"' ∷ rest) ≡ false
unfolding double_quote
at_end-double_quote [] rest = refl
at_end-double_quote (c ∷ cs) rest = ground arith

next_is-double_quote :
    (cs rest : Text) → next_is 10 (double_quote cs ++ b'"' ∷ rest) ≡ next_is 10 cs
unfolding double_quote
next_is-double_quote [] rest = refl
next_is-double_quote (c ∷ cs) rest = ground arith

abbrev pub ended : Reader → Text → Reader
ended s cs = record s { f = s.f ++ cs; quoted = false; last = end_quote }

ended-push : (s : Reader) (c : ℕ) (cs : Text) → ended (push c s) cs ≡ ended s (c ∷ cs)
ended-push s c cs =
    ap (λ g. record s { f = g; quoted = false; last = end_quote }) (append_assoc s.f (c ∷ []) cs)

-- The closing quote, with a byte behind it that is no quote.
close_quote :
    (sep d : ℕ) (s : Reader) (rest : Text)
    → s.quoted ≡ true
    → d ≢ b'"'
    → read_loop sep s (b'"' ∷ d ∷ rest) ≡ read_loop sep (ended s []) (d ∷ rest)
unfolding resume
close_quote sep d s rest q n =
    read_loop-cons sep s b'"' (d ∷ rest)
    ∙ (rw (iterate_quote sep s q (d ∷ rest)) (ground (arith, append-nil s.f)))

pub plain_step :
    (sep c : ℕ) (s : Reader) (rest : Text)
    → s.quoted ≡ true
    → skips s c ≡ false
    → c < 255
    → c ≢ 13
    → c ≢ b'"'
    → read_loop sep s (c ∷ rest) ≡ read_loop sep (push c s) rest
unfolding resume
plain_step sep c s rest q k h n m =
    read_loop-cons sep s c rest ∙ rw (iterate_plain sep s q c rest k h n m)

pub double_step :
    (sep : ℕ) (s : Reader) (rest : Text)
    → s.quoted ≡ true
    → read_loop sep s (b'"' ∷ b'"' ∷ rest) ≡ read_loop sep (push b'"' s) rest
unfolding resume
double_step sep s rest q =
    read_loop-cons sep s b'"' (b'"' ∷ rest) ∙ rw (iterate_quote sep s q (b'"' ∷ rest))

pub cr_step :
    (sep : ℕ) (s : Reader) (rest : Text)
    → s.quoted ≡ true
    → next_is 10 rest ≡ false
    → at_end rest ≡ false
    → read_loop sep s (13 ∷ rest) ≡ read_loop sep (push 13 s) rest
unfolding resume
cr_step sep s rest q n e = read_loop-cons sep s 13 rest ∙ rw (iterate_cr sep s q rest, n, e)

pub cr_lf_step :
    (sep : ℕ) (s : Reader) (rest : Text)
    → s.quoted ≡ true
    → read_loop sep s (13 ∷ 10 ∷ rest) ≡ read_loop sep (push 10 (push 13 s)) rest
unfolding resume
cr_lf_step sep s rest q = read_loop-cons sep s 13 (10 ∷ rest) ∙ rw (iterate_cr sep s q (10 ∷ rest))

and_right : (a b : Bool) → (a && b) ≡ false → a ≡ true → b ≡ false
and_right a b h k = ground arith

and_left : (a b : Bool) → (a && b) ≡ true → a ≡ true
and_left a b h = ground arith

and_both : (a b : Bool) → (a && b) ≡ true → b ≡ true
and_both a b h = ground arith

module _ (sep d : ℕ) (rest : Text) where
  -- The double_quote bytes, the closing quote, and what follows.
  abbrev closing : Text → Text
  closing cs = double_quote cs ++ b'"' ∷ d ∷ rest

  -- One byte of the field, but a carriage return before a line feed.
  double_quote_step :
      (s : Reader) (c : ℕ) (cs : Text)
      → s.quoted ≡ true
      → skips s c ≡ false
      → c < 255
      → ((c == 13) && next_is 10 cs) ≡ false
      → read_loop sep s (closing (c ∷ cs)) ≡ read_loop sep (push c s) (closing cs)
  unfolding double_quote
  double_quote_step s c cs q k h n = elim (Bool-cases (c == b'"')) [
    | inl e ↦ rw ((==_iff c b'"').0 e) (double_step sep s (closing cs) q)
    | inr e ↦ rw e (elim (Bool-cases (c == 13)) [
      | inl f ↦ rw ((==_iff c 13).0 f) (
          cr_step sep s (closing cs) q
            (next_is-double_quote cs (d ∷ rest) ∙ and_right (c == 13) (next_is 10 cs) n f)
            (at_end-double_quote cs (d ∷ rest)))
      | inr f ↦ plain_step sep c s (closing cs) q k h (ground arith) (ground arith)
    ])
  ]

  -- The bytes of a quoted field are read as they were before they were double_quote.
  pub read_loop-double_quote :
      (s : Reader) (cs : Text)
      → s.quoted ≡ true
      → Kept s cs
      → All (λ c. c < 255) cs
      → d ≢ b'"'
      → read_loop sep s (closing cs) ≡ read_loop sep (ended s cs) (d ∷ rest)
  unfolding double_quote
  read_loop-double_quote s [] q k h n = close_quote sep d s rest q n
  read_loop-double_quote s (c ∷ []) q k h n =
      double_quote_step s c [] q k h.0 (ground arith)
      ∙ (close_quote sep d (push c s) rest q n
          ∙ ap (λ r. read_loop sep r (d ∷ rest)) (ended-push s c []))
  read_loop-double_quote s (c ∷ e ∷ cs) q k h n = elim (Bool-cases ((c == 13) && (10 == e))) [
    | inl b ↦
        rw
          (
            (==_iff c 13).0 (and_left (c == 13) (10 == e) b),
            sym ((==_iff 10 e).0 (and_both (c == 13) (10 == e) b)),
          )
          (cr_lf_step sep s (closing cs) q
            ∙ (read_loop-double_quote (push 10 (push 13 s)) cs q (Kept-push 10 (push 13 s) cs) h.1.1
                  n
                ∙ ap (λ r. read_loop sep r (d ∷ rest))
                    (ended-push (push 13 s) 10 cs ∙ ended-push s 13 (10 ∷ cs))))
    | inr b ↦
        double_quote_step s c (e ∷ cs) q k h.0 b
        ∙ (read_loop-double_quote (push c s) (e ∷ cs) q (Kept-push c s (e ∷ cs)) h.1 n
            ∙ ap (λ r. read_loop sep r (d ∷ rest)) (ended-push s c (e ∷ cs)))
  ]
