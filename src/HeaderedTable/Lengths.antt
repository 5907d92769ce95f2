-- ===== src/HeaderedTable/Lengths.antt =====
-- Renaming headers, as src/HeaderedTable.cpp does it, leaves the number of cells as it is.
use brenlib.Prelude.{
  ℕ, zero, suc, ◌+◌, ◌-◌, List, [], length, take, Result, ok, err, ◌≡◌, refl, ◌∙◌, length-set,
  Bool-cases, inl, inr,
}
use brenlib.Prelude.Text.{Text, text_eq}
use brenlib.Table.{Table}
use brenlib.Table.Places.{get_or}
use brenlib.HeaderedTable.{
  unique_name, Cells, ◌then_do◌, store_name, rename, rename_from, unique_from, make_headers_unique,
}

length-store_name :
    (d : ℕ) (cells : List Text) (r : Result Text) → length (store_name d cells r).0 ≡ length cells
length-store_name d cells (ok name) = length-set cells d name
length-store_name d cells (err e) = refl

length-rename : (cols c d : ℕ) (cells : List Text) → length (rename cols c d cells).0 ≡ length cells
unfolding rename
length-rename cols c d cells = elim (Bool-cases (text_eq (get_or [] cells c) (get_or [] cells d))) [
  | inl e ↦
      rw (e, rename)
        (length-store_name d cells (unique_name 65535 0 (get_or [] cells d) (take cols cells)))
  | inr e ↦ rw (e, rename) refl
]

length-then :
    (n : ℕ) (m : Cells) (f : List Text → Cells)
    → length m.0 ≡ n
    → ((cells : List Text) → length cells ≡ n → length (f cells).0 ≡ n)
    → length (m then_do f).0 ≡ n
length-then n (cells, ok u) f h k = k cells h
length-then n (cells, err e) f h k = h

length-rename_from :
    (left cols c d n : ℕ) (cells : List Text)
    → length cells ≡ n
    → length (rename_from left cols c d cells).0 ≡ n
unfolding rename_from
length-rename_from zero cols c d n cells h = h
length-rename_from (suc left) cols c d n cells h =
    length-then n (rename cols c d cells) _ (length-rename cols c d cells ∙ h)
      (λ cells' h'. length-rename_from left cols c (d + 1) n cells' h')

length-unique_from :
    (left cols c n : ℕ) (cells : List Text)
    → length cells ≡ n
    → length (unique_from left cols c cells).0 ≡ n
unfolding unique_from
length-unique_from zero cols c n cells h = h
length-unique_from (suc left) cols c n cells h =
    length-then n (rename_from (cols - (c + 1)) cols c (c + 1) cells) _
      (length-rename_from (cols - (c + 1)) cols c (c + 1) n cells h)
      (λ cells' h'. length-unique_from left cols (c + 1) n cells' h')

pub length-make_headers_unique :
    (t : Table Text) → length (make_headers_unique t).0 ≡ length t.data_
unfolding make_headers_unique
length-make_headers_unique t = length-unique_from t.cols_ t.cols_ 0 (length t.data_) t.data_ refl
