-- ===== src/HeaderedTable/Rest.antt =====
-- Renaming headers, as src/HeaderedTable.cpp does it, leaves the cells behind the headers as they are.
use brenlib.Prelude.{
  ℕ, zero, suc, ◌+◌, ◌-◌, ◌<◌, ◌≤◌, List, [], ◌∷◌, set, take, Result, ok, err, ◌≡◌, ◌≢◌, refl,
  arith, ◌∙◌, ap, Bool-cases, inl, inr,
}
use brenlib.Prelude.Text.{Text, text_eq}
use brenlib.Table.{Table}
use brenlib.Table.Places.{get_or}
use brenlib.HeaderedTable.{
  unique_name, Cells, ◌then_do◌, store_name, rename, rename_from, unique_from, make_headers_unique,
}

get_or-set_other :
    (xs : List Text) (i k : ℕ) (v : Text) → i ≢ k → get_or [] (set xs i v) k ≡ get_or [] xs k
get_or-set_other [] i k v h = refl
get_or-set_other (x ∷ xs) zero zero v h = absurd (h refl)
get_or-set_other (x ∷ xs) zero (suc k) v h = refl
get_or-set_other (x ∷ xs) (suc i) zero v h = refl
get_or-set_other (x ∷ xs) (suc i) (suc k) v h = get_or-set_other xs i k v (λ e. h (ap suc e))

-- The cells behind the first `cols` are the same.
abbrev HasRest : ℕ → List Text → List Text → Type 0
HasRest cols cells cells' = (j : ℕ) → get_or [] cells' (cols + j) ≡ get_or [] cells (cols + j)

store_name-HasRest :
    (cols d : ℕ) (cells : List Text) (r : Result Text)
    → d < cols
    → HasRest cols cells (store_name d cells r).0
store_name-HasRest cols d cells (ok name) h j =
    get_or-set_other cells d (cols + j) name (λ e. omega (arith, h, e))
store_name-HasRest cols d cells (err e) h j = refl

rename-HasRest :
    (cols c d : ℕ) (cells : List Text) → d < cols → HasRest cols cells (rename cols c d cells).0
unfolding rename
rename-HasRest cols c d cells h j =
    elim (Bool-cases (text_eq (get_or [] cells c) (get_or [] cells d))) [
      | inl e ↦
          rw (e, rename)
            (store_name-HasRest cols d cells
              (unique_name 65535 0 (get_or [] cells d) (take cols cells)) h j)
      | inr e ↦ rw (e, rename) refl
    ]

then-HasRest :
    (cols : ℕ) (cells : List Text) (m : Cells) (f : List Text → Cells)
    → HasRest cols cells m.0
    → ((cells' : List Text) → HasRest cols cells' (f cells').0)
    → HasRest cols cells (m then_do f).0
then-HasRest cols cells (cells', ok u) f h k j = k cells' j ∙ h j
then-HasRest cols cells (cells', err e) f h k j = h j

rename_from-HasRest :
    (left cols c d : ℕ) (cells : List Text)
    → d + left ≤ cols
    → HasRest cols cells (rename_from left cols c d cells).0
unfolding rename_from
rename_from-HasRest zero cols c d cells h = λ j. refl
rename_from-HasRest (suc left) cols c d cells h =
    then-HasRest cols cells (rename cols c d cells) _
      (rename-HasRest cols c d cells (omega (arith, h)))
      (λ cells'. rename_from-HasRest left cols c (d + 1) cells' (omega (arith, h)))

unique_from-HasRest :
    (left cols c : ℕ) (cells : List Text)
    → c + left ≤ cols
    → HasRest cols cells (unique_from left cols c cells).0
unfolding unique_from
unique_from-HasRest zero cols c cells h = λ j. refl
unique_from-HasRest (suc left) cols c cells h =
    then-HasRest cols cells (rename_from (cols - (c + 1)) cols c (c + 1) cells) _
      (rename_from-HasRest (cols - (c + 1)) cols c (c + 1) cells (omega (arith, h)))
      (λ cells'. unique_from-HasRest left cols (c + 1) cells' (omega (arith, h)))

pub make_headers_unique-rest :
    (t : Table Text) (j : ℕ)
    → get_or [] (make_headers_unique t).0 (t.cols_ + j) ≡ get_or [] t.data_ (t.cols_ + j)
unfolding make_headers_unique
make_headers_unique-rest t = unique_from-HasRest t.cols_ t.cols_ 0 t.data_ (omega arith)
