-- ===== src/HeaderedTable/Distinct.antt =====
-- Headers that are different already stay as they are, in src/HeaderedTable.cpp.
use brenlib.Prelude.{ℕ, zero, suc, ◌+◌, ◌-◌, ◌<◌, List, [], ok, ◌≡◌, ◌≢◌, refl, arith}
use brenlib.Prelude.Text.{Text}
use brenlib.Prelude.Maps.{text_eq_iff}
use brenlib.Table.{Table}
use brenlib.Table.Places.{get_or}
use brenlib.HeaderedTable.{rename, rename_from, unique_from, make_headers_unique}

-- The headers of the first `cols` columns are different.
abbrev pub AreDifferent : ℕ → List Text → Type 0
AreDifferent cols cells = (i j : ℕ) → i < j → j < cols → get_or [] cells i ≢ get_or [] cells j

rename_different :
    (cols c d : ℕ) (cells : List Text)
    → get_or [] cells c ≢ get_or [] cells d
    → rename cols c d cells ≡ (cells, ok tt)
unfolding rename
rename_different cols c d cells h =
    ground (arith, h, text_eq_iff (get_or [] cells c) (get_or [] cells d))

rename_from_different :
    (left cols c d : ℕ) (cells : List Text)
    → AreDifferent cols cells
    → c < d
    → d + left ≡ cols
    → rename_from left cols c d cells ≡ (cells, ok tt)
unfolding rename_from
rename_from_different zero cols c d cells h k e = refl
rename_from_different (suc left) cols c d cells h k e =
    rw (rename_different cols c d cells (h c d k (omega arith)))
      (rename_from_different left cols c (d + 1) cells h (omega arith) (omega arith))

unique_from_different :
    (left cols c : ℕ) (cells : List Text)
    → AreDifferent cols cells
    → c + left ≡ cols
    → unique_from left cols c cells ≡ (cells, ok tt)
unfolding unique_from
unique_from_different zero cols c cells h e = refl
unique_from_different (suc left) cols c cells h e =
    rw (rename_from_different (cols - (c + 1)) cols c (c + 1) cells h (omega arith) (omega arith))
      (unique_from_different left cols (c + 1) cells h (omega arith))

-- Different headers are not changed.
pub make_headers_unique_different :
    (t : Table Text) → AreDifferent t.cols_ t.data_ → make_headers_unique t ≡ (t.data_, ok tt)
unfolding make_headers_unique
make_headers_unique_different t h = unique_from_different t.cols_ t.cols_ 0 t.data_ h (omega arith)
