-- ===== src/CsvReader/Files.antt =====
-- A whole file as src/readCSV.cpp reads it.
use native.Mathlib.Nat.{mul-le-mul_right}
use brenlib.Prelude.{
  ℕ, suc, ◌+◌, ◌*◌, ◌<◌, List, [], ◌∷◌, ◌++◌, length, ok, ◌≡◌, ◌≢◌, refl, arith, All, ap, ◌∙◌, inr,
  subst, sym,
}
use brenlib.Prelude.Text.{Text}
use brenlib.Table.{Table, u32}
use brenlib.Table.Places.{value_at, IsWhole}
use brenlib.Table.Grids.{after_rows, cell_of, after_rows-cell_of}
use brenlib.CsvWriter.{Settings}
use brenlib.CsvWriter.Printed.{printed, IsReadable}
use brenlib.CsvReader.{start_of_record, start, skips, before_header, iterate, read_loop, read_csv}
use brenlib.CsvReader.Quoted.{Kept}
use brenlib.CsvReader.Steps.{IsSeparator, in_header, in_data, line_feed}
use brenlib.CsvReader.Lines.{more_fields, AreBytes, Closes, header_fields, data_fields}

-- A line, and the lines of a file.
unfoldable pub line_text : Settings → List Text → Text → Text
line_text cfg [] rest = line_feed cfg.carriage_return rest
line_text cfg (f ∷ fs) rest =
    printed cfg f ++ more_fields cfg fs (line_feed cfg.carriage_return rest)

unfoldable pub lines_text : Settings → List (List Text) → Text → Text
unfolding line_text
lines_text cfg [] rest = rest
lines_text cfg (row ∷ rows) rest = line_text cfg row (lines_text cfg rows rest)

abbrev pub file_text : Settings → List (List Text) → Text
file_text cfg rows = lines_text cfg rows []

-- A line is not empty: something is printed for its only field.
abbrev pub IsShown : Settings → List Text → Type 0
IsShown cfg [] = Unit {0}
IsShown cfg (f ∷ []) = printed cfg f ≢ []
IsShown cfg (f ∷ g ∷ gs) = Unit {0}

shown-Closes :
    (cfg : Settings) (b : IsSeparator cfg.field_sep) (f : Text) (fs : List Text)
    → IsShown cfg (f ∷ fs)
    → Closes cfg b start_of_record f fs
shown-Closes cfg b f [] h = inr h
shown-Closes cfg b f (g ∷ gs) h = tt

row_fits : (row n cols : ℕ) → (row + suc n) * cols < u32 → (row + 1) * cols < u32
row_fits row n cols h =
    omega (arith, h, mul-le-mul_right {m = row + 1} {n = row + suc n} cols (omega arith))

next_rows_fit :
    (row n cols cols' : ℕ) → cols' ≡ cols → (row + suc n) * cols < u32 → (row + 1 + n) * cols' < u32
next_rows_fit row n cols cols' e h =
    rw e (omega (arith, h, mul-le-mul_right {m = row + 1 + n} {n = row + suc n} cols (omega arith)))

pub read_loop_end :
    (sep : ℕ) (t : Table Text) (row : ℕ)
    → read_loop sep (in_data t 0 row [] start_of_record) [] ≡ ok t
unfolding read_loop iterate skips before_header brenlib.CsvReader.read_end
read_loop_end sep t row = refl

-- The first byte of the header is not passed over.
abbrev pub IsPlain : Text → Type 0
IsPlain [] = Unit {0}
IsPlain (c ∷ cs) = c < 128

Kept-plain : (f : Text) → IsPlain f → Kept (in_header [] [] start_of_record) f
unfolding skips
Kept-plain [] h = tt
Kept-plain (c ∷ cs) h = ground arith

module _ (cfg : Settings) (is_sep : IsSeparator cfg.field_sep) where
  -- The rows behind the header, up to what stands behind them.
  pub read_rows :
      (rows : List (List Text)) (t : Table Text) (row : ℕ) (rest : Text)
      → IsWhole t
      → length t.data_ ≡ row * t.cols_
      → All (λ x. length x ≡ t.cols_) rows
      → (row + length rows) * t.cols_ < u32
      → All (All AreBytes) rows
      → All (All (IsReadable cfg)) rows
      → All (IsShown cfg) rows
      → (t' : Table Text) × (read_loop cfg.field_sep
            (in_data t 0 row [] start_of_record)
            (lines_text cfg rows rest)
          ≡ read_loop cfg.field_sep (in_data t' 0 (row + length rows) [] start_of_record) rest)
        × (t'.cols_ ≡ t.cols_)
        × IsWhole t'
        × (length t'.data_ ≡ (row + length rows) * t.cols_)
        × ((c r : ℕ)
            → c < t.cols_
            → value_at [] t' c r ≡ after_rows (value_at [] t c r) row rows c r)
  unfolding lines_text line_text after_rows
  read_rows [] t row rest w z l n b d v =
      let same : row ≡ row + 0 = omega arith in
      (
        t,
        ap (λ k. read_loop cfg.field_sep (in_data t 0 k [] start_of_record) rest) same,
        refl,
        w,
        z ∙ ap (λ k. k * t.cols_) same,
        λ c r h. refl,
      )
  read_rows ([] ∷ rows) t row rest w z l n b d v = absurd (omega (arith, l.0, w.some_column))
  read_rows ((f ∷ fs) ∷ rows) t row rest w z l n b d v =
      let (t₁, e₁, s₁) =
        data_fields cfg is_sep fs t 0 row f (lines_text cfg rows rest) start_of_record w (inr refl)
          (shown-Closes cfg is_sep f fs v.0) (omega (arith, l.0))
          (row_fits row (length rows) t.cols_ n) b.0 d.0 in
      let (t₂, e₂, c₂, w₂, z₂, v₂) =
        read_rows rows t₁ (row + 1) rest s₁.whole (rw s₁.same_cols (s₁.begins z))
          (subst (λ k. All (λ x. length x ≡ k) rows) (sym s₁.same_cols) l.1)
          (next_rows_fit row (length rows) t.cols_ t₁.cols_ s₁.same_cols n) b.1 d.1 v.1 in
      let place : row + 1 + length rows ≡ row + suc (length rows) = omega arith in
      (
        t₂,
        e₁
            ∙ (e₂
                ∙ ap (λ k. read_loop cfg.field_sep (in_data t₂ 0 k [] start_of_record) rest) place),
        c₂ ∙ s₁.same_cols,
        w₂,
        z₂ ∙ (ap (λ k. (row + 1 + length rows) * k) s₁.same_cols ∙ ap (λ k. k * t.cols_) place),
        λ c r h.
            v₂ c r (rw s₁.same_cols h) ∙ ap (λ d. after_rows d (row + 1) rows c r) (s₁.cells c r h),
      )

  -- The header and rows of its length, up to what stands behind them, are read into a table of their
  -- cells.
  pub read_csv-lines_text :
      (name : Text) (names : List Text) (rows : List (List Text)) (rest : Text)
      → IsPlain name
      → printed cfg name ≢ []
      → length (name ∷ names) < 65535
      → All (λ x. length x ≡ length (name ∷ names)) rows
      → (1 + length rows) * (length (name ∷ names)) < u32
      → All (All AreBytes) ((name ∷ names) ∷ rows)
      → All (All (IsReadable cfg)) ((name ∷ names) ∷ rows)
      → All (IsShown cfg) rows
      → (t : Table Text) × (read_csv cfg.field_sep (lines_text cfg ((name ∷ names) ∷ rows) rest)
          ≡ read_loop cfg.field_sep (in_data t 0 (1 + length rows) [] start_of_record) rest)
        × (t.cols_ ≡ length (name ∷ names))
        × IsWhole t
        × (length t.data_ ≡ (1 + length rows) * length (name ∷ names))
        × ((c r : ℕ)
            → c < length (name ∷ names)
            → value_at [] t c r ≡ cell_of [] ((name ∷ names) ∷ rows) c r)
  unfolding read_csv lines_text line_text after_rows
  read_csv-lines_text name names rows rest p z n l s b d v =
      let (t₁, e₁, s₁) =
        header_fields cfg is_sep names [] name (lines_text cfg rows rest) start_of_record
          (name ∷ names) refl n (inr refl) (inr z) (Kept-plain name p) b.0 d.0 in
      let (t₂, e₂, c₂, w₂, z₂, v₂) =
        read_rows rows t₁ 1 rest s₁.whole (rw s₁.same_cols (s₁.begins (omega arith)))
          (subst (λ k. All (λ x. length x ≡ k) rows) (sym s₁.same_cols) l) (rw s₁.same_cols s) b.1
          d.1 v in
      (
        t₂,
        e₁ ∙ e₂,
        c₂ ∙ s₁.same_cols,
        w₂,
        z₂ ∙ ap (λ k. (1 + length rows) * k) s₁.same_cols,
        λ c r h.
            v₂ c r (rw s₁.same_cols h)
            ∙ (ap (λ d. after_rows d 1 rows c r) (s₁.cells c r h)
                ∙ after_rows-cell_of ((name ∷ names) ∷ rows) [] c r),
      )
