-- ===== src/CsvReader/Lines.antt =====
-- Lines as src/CsvWriter.cpp writes them and src/readCSV.cpp reads them.
use mathlib.Core.List.{append_assoc}
use brenlib.Prelude.{
  ℕ, ◌+◌, ◌*◌, ◌≤◌, ◌<◌, length-append, subst, List, [], ◌∷◌, ◌++◌, length, ok, ◌≡◌, ◌≢◌, refl,
  arith, All, ◌∙◌, ◌⊎◌, inl,
}
use brenlib.Prelude.Text.{Text}
use brenlib.Table.{Table, create, set_columns, u32}
use brenlib.Table.Places.{IsWhole, row_lt}
use brenlib.Table.Rows.{Stored, Stored-none, Stored-put}
use brenlib.CsvWriter.{Settings}
use brenlib.CsvWriter.Printed.{printed, IsReadable, printed-Shows}
use brenlib.CsvReader.{
  Last, end_quote, separator, start_of_record, Reader, start, skips, before_header, header_ready,
  store_header, end_record, read_loop,
}
use brenlib.CsvReader.Quoted.{Kept}
use brenlib.CsvReader.Endings.{end_record-data}
use brenlib.CsvReader.Fields.{read_shown, read_closed, read_last}
use brenlib.CsvReader.Steps.{
  MayBegin, IsSeparator, in_header, in_data, line_feed, read_loop-line_feed, read_loop_sep-in_data,
  read_loop_sep-in_header,
}

-- The fields behind the first one of a line, and the whole line.
unfoldable pub more_fields : Settings → List Text → Text → Text
more_fields cfg [] rest = rest
more_fields cfg (f ∷ fs) rest = cfg.field_sep ∷ (printed cfg f ++ more_fields cfg fs rest)

-- Bytes that the reader does not take for the end of the stream.
abbrev pub AreBytes : Text → Type 0
AreBytes = All λ c. c < 255

pub Kept-in_data :
    (t : Table Text) (col row : ℕ) (f g : Text) (last : Last) → Kept (in_data t col row f last) g
unfolding skips before_header
Kept-in_data t col row f [] last = tt
Kept-in_data t col row f (c ∷ g) last = refl

module _ (cfg : Settings) (is_sep : IsSeparator cfg.field_sep) where
  -- A field `f`, the first one of those that are left of a line, ends the line only where the reader
  -- sees that there is a field.
  abbrev pub Closes : Last → Text → List Text → Type 0
  Closes last f [] = (last ≡ separator) ⊎ (printed cfg f ≢ [])
  Closes last f (g ∷ gs) = Unit {0}

  abbrev after_separator : (f : Text) (fs : List Text) → Closes separator f fs
  after_separator f [] = inl refl
  after_separator f (g ∷ gs) = tt

  -- A line behind its first field is read from `t` in `row`, and leaves a table and the start of the
  -- next line.
  pub data_fields :
      (fs : List Text) (t : Table Text) (col row : ℕ) (f rest : Text) (last : Last)
      → IsWhole t
      → MayBegin last
      → Closes last f fs
      → col + (1 + length fs) ≡ t.cols_
      → (row + 1) * t.cols_ < u32
      → All AreBytes (f ∷ fs)
      → All (IsReadable cfg) (f ∷ fs)
      → (t' : Table Text) × (read_loop cfg.field_sep
            (in_data t col row [] last)
            (printed cfg f ++ more_fields cfg fs (line_feed cfg.carriage_return rest))
          ≡ read_loop cfg.field_sep (in_data t' 0 (row + 1) [] start_of_record) rest)
        × Stored [] t row col (f ∷ fs) t'
  unfolding more_fields
  data_fields [] t col row f rest last w m c n h b r =
      let (t₁, p, w₁, s₁, stored) = Stored-put [] t row col f w (omega arith) h in
      let (l, m', e) =
        read_last cfg.field_sep cfg.carriage_return (in_data t col row [] last) f (printed cfg f)
          rest m (Kept-in_data t col row [] f last) b.0 (printed-Shows cfg f r.0).1 c in
      (
        t₁,
        e
            ∙ read_loop-line_feed cfg.field_sep cfg.carriage_return (in_data t col row f l)
                (in_data t₁ 0 (row + 1) [] start_of_record) rest refl m'
                (end_record-data (in_data t col row f l) t₁ refl p
                  (λ x. omega (arith, row_lt row t.cols_ w.some_column h))),
        stored [] t₁ (Stored-none [] t₁ row (col + 1) w₁),
      )
  data_fields (g ∷ gs) t col row f rest last w m c n h b r =
      let (t₁, p, w₁, s₁, stored) = Stored-put [] t row col f w (omega arith) h in
      let tail = printed cfg g ++ more_fields cfg gs (line_feed cfg.carriage_return rest) in
      let (l, x, e) =
        read_shown cfg.field_sep cfg.field_sep (in_data t col row [] last) f (printed cfg f) tail m
          (Kept-in_data t col row [] f last) b.0 is_sep.not_quote (printed-Shows cfg f r.0).1 in
      let (t', e', s) =
        data_fields gs t₁ (col + 1) row g rest separator w₁ (inl refl) (after_separator g gs)
          (omega (arith, n, s₁)) (rw s₁ h) b.1 r.1 in
      (
        t',
        e
            ∙ (read_loop_sep-in_data cfg.field_sep t t₁ col row f tail l is_sep p
                  (omega (arith, n, s₁))
                ∙ e'),
        stored (g ∷ gs) t' s,
      )

-- The header is stored in the first row.
store_header-Stored :
    (ns : List Text) (t : Table Text) (c : ℕ)
    → IsWhole t
    → c + length ns ≤ t.cols_
    → t.cols_ < u32
    → (t' : Table Text) × (store_header t c ns ≡ ok t') × Stored [] t 0 c ns t'
unfolding store_header
store_header-Stored [] t c w n h = (t, refl, Stored-none [] t 0 c w)
store_header-Stored (f ∷ fs) t c w n h =
    let (t₁, p, w₁, s₁, stored) = Stored-put [] t 0 c f w (omega arith) (omega arith) in
    let (t', e, s) = store_header-Stored fs t₁ (c + 1) w₁ (omega (arith, s₁)) (rw s₁ h) in
    (t', rw p e, stored fs t' s)

-- A table of `n` columns without a row.
abbrev pub sized : ℕ → Table Text
sized n = record { cols_ = n; data_ = [] }

sized-IsWhole : (n : ℕ) → 1 ≤ n → IsWhole (sized n)
sized-IsWhole n h = record { count = 0; whole = omega arith; fits = omega arith; some_column = h }

end_record-in_header :
    (h : List Text) (f : Text) (l : Last)
    → length (h ++ f ∷ []) < 65535
    → (t' : Table Text) × (end_record (in_header h f l) ≡ ok (in_data t' 0 1 [] start_of_record))
      × Stored [] (sized (length (h ++ f ∷ []))) 0 0 (h ++ f ∷ []) t'
unfolding end_record brenlib.CsvReader.field_ready header_ready create set_columns
end_record-in_header h f l n =
    let some_field : 1 ≤ length (h ++ f ∷ []) = omega (arith, length-append h (f ∷ [])) in
    let (t', e, s) =
      store_header-Stored (h ++ f ∷ []) (sized (length (h ++ f ∷ []))) 0
        (sized-IsWhole (length (h ++ f ∷ [])) some_field) (omega arith) (omega arith) in
    (t', ground (arith, e, some_field, n), s)

Kept-separator : (h : List Text) (f g : Text) → Kept (in_header h f separator) g
unfolding skips before_header
Kept-separator h f [] = tt
Kept-separator h f (c ∷ g) = refl

module _ (cfg : Settings) (is_sep : IsSeparator cfg.field_sep) where
  -- The header behind the names `h`, of which all together are `names`.
  pub header_fields :
      (fs : List Text) (h : List Text) (f rest : Text) (last : Last) (names : List Text)
      → h ++ f ∷ fs ≡ names
      → length names < 65535
      → MayBegin last
      → (last ≡ separator) ⊎ (printed cfg f ≢ [])
      → Kept (in_header h [] last) f
      → All AreBytes (f ∷ fs)
      → All (IsReadable cfg) (f ∷ fs)
      → (t' : Table Text) × (read_loop cfg.field_sep
            (in_header h [] last)
            (printed cfg f ++ more_fields cfg fs (line_feed cfg.carriage_return rest))
          ≡ read_loop cfg.field_sep (in_data t' 0 1 [] start_of_record) rest)
        × Stored [] (sized (length names)) 0 0 names t'
  unfolding more_fields
  header_fields [] h f rest last names e n m c k b r =
      let (l, m', x) =
        read_last cfg.field_sep cfg.carriage_return (in_header h [] last) f (printed cfg f) rest m k
          b.0 (printed-Shows cfg f r.0).1 c in
      let (t', y, s) = end_record-in_header h f l (rw e n) in
      (
        t',
        x
            ∙ read_loop-line_feed cfg.field_sep cfg.carriage_return (in_header h f l)
                (in_data t' 0 1 [] start_of_record) rest refl m' y,
        subst (λ ns. Stored [] (sized (length ns)) 0 0 ns t') e s,
      )
  header_fields (g ∷ gs) h f rest last names e n m c k b r =
      let tail = printed cfg g ++ more_fields cfg gs (line_feed cfg.carriage_return rest) in
      let (l, m', x) =
        read_closed cfg.field_sep cfg.field_sep (in_header h [] last) f (printed cfg f) tail m k b.0
          is_sep.not_quote (printed-Shows cfg f r.0).1 c in
      let (t', y, s) =
        header_fields gs (h ++ f ∷ []) g rest separator names (append_assoc h (f ∷ []) (g ∷ gs) ∙ e)
          n (inl refl) (inl refl) (Kept-separator (h ++ f ∷ []) [] g) b.1 r.1 in
      (t', x ∙ (read_loop_sep-in_header cfg.field_sep h f tail l is_sep m' ∙ y), s)
