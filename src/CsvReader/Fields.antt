-- ===== src/CsvReader/Fields.antt =====
-- How src/readCSV.cpp reads a field, quoted or not, up to the byte behind it.
use mathlib.Core.List.{append_assoc}
use brenlib.Prelude.{
  ℕ, ◌<◌, Bool, true, false, [], ◌∷◌, ◌++◌, ok, ◌>>=◌, ◌≡◌, ◌≢◌, refl, arith, All, ap, ◌∙◌, ◌⊎◌,
  inl, inr, Bool-cases, ==_iff, ◌==◌,
}
use brenlib.Prelude.Text.{Text}
use brenlib.CsvWriter.Printed.{IsBare, Shows}
use brenlib.CsvReader.{
  Last, end_quote, field_data, separator, start_of_record, Reader, onward, push, before_header,
  skips, iterate, read_loop,
}
use brenlib.CsvReader.Quoted.{resume, read_loop-cons, Kept, Kept-push}
use brenlib.CsvReader.Steps.{MayBegin, MayEnd, in_quotes, read_loop_field, line_feed}

-- A byte outside quotes that is stored.
iterate_bare :
    (sep c : ℕ) (s : Reader) (rest : Text)
    → s.quoted ≡ false
    → skips s c ≡ false
    → c < 255
    → (c ≢ 13) × (c ≢ 10) × (c ≢ sep)
    → c ≢ b'"'
    → iterate sep s c rest ≡ ok (onward (push c s))
unfolding iterate
iterate_bare sep c s rest q k h n m = ground arith

-- A quote inside a field without quotes is stored, too.
iterate_inner_quote :
    (sep d : ℕ) (s : Reader) (rest : Text)
    → s.quoted ≡ false
    → iterate sep (push d s) b'"' rest ≡ ok (onward (push b'"' (push d s)))
unfolding iterate brenlib.CsvReader.read_quote skips before_header
iterate_inner_quote sep d s rest q = ground arith

step_inner :
    (sep c e : ℕ) (s : Reader) (rest : Text)
    → s.quoted ≡ false
    → e < 255
    → (e ≢ 13) × (e ≢ 10) × (e ≢ sep)
    → iterate sep (push c s) e rest ≡ ok (onward (push e (push c s)))
step_inner sep c e s rest q k n = elim (Bool-cases (e == b'"')) [
  | inl h ↦ rw ((==_iff e b'"').0 h) (iterate_inner_quote sep c s rest q)
  | inr h ↦ iterate_bare sep e (push c s) rest q (Kept-push c s (e ∷ [])) k n (ground arith)
]

-- The bytes of a field without quotes, behind its first one.
read_inner :
    (sep d c : ℕ) (s : Reader) (cs rest : Text)
    → s.quoted ≡ false
    → All (λ e. e < 255) cs
    → All (λ e. (e ≢ 13) × (e ≢ 10) × (e ≢ sep)) cs
    → read_loop sep (push c s) (cs ++ d ∷ rest)
      ≡ read_loop sep (record s { f = s.f ++ c ∷ cs; last = field_data }) (d ∷ rest)
unfolding resume
read_inner sep d c s [] rest q k n = refl
read_inner sep d c s (e ∷ cs) rest q k n =
    read_loop-cons sep (push c s) e (cs ++ d ∷ rest)
    ∙ (ap (λ r. r >>= resume sep (cs ++ d ∷ rest)) (step_inner sep c e s (cs ++ d ∷ rest) q k.0 n.0)
        ∙ (read_inner sep d e (push c s) cs rest q k.1 n.1
            ∙ ap (λ (g : Text). read_loop sep (record s { f = g; last = field_data }) (d ∷ rest))
                (append_assoc s.f (c ∷ []) (e ∷ cs))))

-- A reader at the beginning of a field.
abbrev pub begun : Reader → Reader
begun s = record s { quoted = false; f = [] }

-- Behind the field `f`.
abbrev pub behind : Reader → Text → Last → Reader
behind s f l = record s { quoted = false; f = f; last = l }

Kept-in_quotes : (s : Reader) (f : Text) → Kept s f → Kept (in_quotes s) f
unfolding skips before_header
Kept-in_quotes s [] k = tt
Kept-in_quotes s (c ∷ cs) k = k

Kept-begun : (s : Reader) (f : Text) → Kept s f → Kept (begun s) f
unfolding skips before_header
Kept-begun s [] k = tt
Kept-begun s (c ∷ cs) k = k

-- What a field leaves in `last`: that it may end, unless nothing was printed for it.
abbrev pub Leaves : Last → Text → Last → Type 0
Leaves before text l = MayEnd l ⊎ ((text ≡ []) × (l ≡ before))

read_bare :
    (sep d : ℕ) (s : Reader) (f rest : Text)
    → Kept s f
    → All (λ c. c < 255) f
    → IsBare sep f
    → (l : Last) × Leaves s.last f l
      × (read_loop sep (begun s) (f ++ d ∷ rest) ≡ read_loop sep (behind s f l) (d ∷ rest))
unfolding resume
read_bare sep d s [] rest k b p = (s.last, inr (refl, refl), refl)
read_bare sep d s (c ∷ cs) rest k b p = (
  field_data,
  inl (inr (inl refl)),
  read_loop-cons sep (begun s) c (cs ++ d ∷ rest)
      ∙ (ap (λ r. r >>= resume sep (cs ++ d ∷ rest))
            (iterate_bare sep c (begun s) (cs ++ d ∷ rest) refl (Kept-begun s (c ∷ cs) k) b.0
              p.inner.0 p.begins)
          ∙ read_inner sep d c (begun s) cs rest refl b.1 p.inner.1),
)

-- A field is read as what it shows.
pub read_shown :
    (sep d : ℕ) (s : Reader) (f text rest : Text)
    → MayBegin s.last
    → Kept s f
    → All (λ c. c < 255) f
    → d ≢ b'"'
    → Shows sep f text
    → (l : Last) × Leaves s.last text l
      × (read_loop sep (begun s) (text ++ d ∷ rest) ≡ read_loop sep (behind s f l) (d ∷ rest))
read_shown sep d s f text rest m k b n (inl e) = (
  end_quote,
  inl (inl refl),
  rw e (read_loop_field sep d (begun s) f rest refl m (Kept-in_quotes s f k) b n),
)
read_shown sep d s f text rest m k b n (inr (e, p)) = rw e (read_bare sep d s f rest k b p)

ended_by :
    (before : Last) (text : Text) (l : Last)
    → (before ≡ separator) ⊎ (text ≢ [])
    → Leaves before text l
    → MayEnd l
ended_by before text l c (inl m) = m
ended_by before text l (inl e) (inr (n, h)) = inr (inr (h ∙ e))
ended_by before text l (inr c) (inr (n, h)) = absurd (c n)

-- A field behind a separator, or of which something is printed.
pub read_closed :
    (sep d : ℕ) (s : Reader) (f text rest : Text)
    → MayBegin s.last
    → Kept s f
    → All (λ c. c < 255) f
    → d ≢ b'"'
    → Shows sep f text
    → (s.last ≡ separator) ⊎ (text ≢ [])
    → (l : Last) × MayEnd l
      × (read_loop sep (begun s) (text ++ d ∷ rest) ≡ read_loop sep (behind s f l) (d ∷ rest))
read_closed sep d s f text rest m k b n w c =
    let (l, leaves, e) = read_shown sep d s f text rest m k b n w in
    (l, ended_by s.last text l c leaves, e)

-- Such a field at the end of a line.
pub read_last :
    (sep : ℕ) (cr : Bool) (s : Reader) (f text rest : Text)
    → MayBegin s.last
    → Kept s f
    → All (λ c. c < 255) f
    → Shows sep f text
    → (s.last ≡ separator) ⊎ (text ≢ [])
    → (l : Last) × MayEnd l
      × (read_loop sep (begun s) (text ++ line_feed cr rest)
          ≡ read_loop sep (behind s f l) (line_feed cr rest))
read_last sep true s f text rest m k b w c =
    read_closed sep 13 s f text (10 ∷ rest) m k b (λ e. omega arith) w c
read_last sep false s f text rest m k b w c =
    read_closed sep 10 s f text rest m k b (λ e. omega arith) w c
