-- ===== src/Table/Cells.antt =====
-- A table of hdr/bren/Table.hpp as a function from places to values.
use brenlib.Prelude.{
  ℕ, zero, suc, ◌+◌, ◌*◌, ◌<◌, ◌&&◌, ltb, ◌==◌, if◌then◌else◌, List, [], ◌∷◌, length, set, ok, ◌≡◌,
  refl, arith, ◌∙◌, length-set,
}
use brenlib.Table.{Table, u32, rows, at, get, put}
use brenlib.Table.Places.{place_eq, get_or, value_at, IsWhole, get_or-set, Located, locate-Located}

module _ {ℓ} {T : Type ℓ} where
  at-get_or : (d : T) (xs : List T) (i : ℕ) → i < length xs → at xs i ≡ ok (get_or d xs i)
  at-get_or d [] i h = elim h [ ]
  at-get_or d (x ∷ xs) zero h = refl
  at-get_or d (x ∷ xs) (suc i) h = at-get_or d xs i (omega arith)

  set-IsWhole :
      (t : Table T) (i : ℕ) (v : T) → IsWhole t → IsWhole (record t { data_ = set t.data_ i v })
  set-IsWhole t i v w = record {
    count = w.count;
    whole = length-set t.data_ i v ∙ w.whole;
    fits = omega (arith, w.fits, length-set t.data_ i v);
    some_column = w.some_column;
  }

  -- What `put` makes of the table that `locate` found.
  put-Located :
      (empty : T) (t : Table T) (col row : ℕ) (v : T) (l : Located empty t col row)
      → put empty t col row v
        ≡ ok (record (l.table) { data_ = set l.table.data_ (row * t.cols_ + col) v })
  unfolding put
  put-Located empty t col row v l =
      ground (arith, l.found, at-get_or empty l.table.data_ (row * t.cols_ + col) l.inside)

  value_at-set :
      (empty : T) (t : Table T) (col row c r : ℕ) (v : T) (l : Located empty t col row)
      → col < t.cols_
      → c < t.cols_
      → get_or empty (set l.table.data_ (row * t.cols_ + col) v) (r * l.table.cols_ + c)
        ≡ (if (col == c) && (row == r) then v else value_at empty t c r)
  value_at-set empty t col row c r v l hc h = rw (
    l.same_cols,
    get_or-set empty l.table.data_ (row * t.cols_ + col) (r * t.cols_ + c) v l.inside,
    l.same (r * t.cols_ + c),
    place_eq col row c r t.cols_ hc h,
  )

  -- A cell that is assigned holds the value, every other cell of the table is as it was, the rows stay
  -- whole, and the table grows up to that row if it was shorter; the cells must be fewer than 2 ^ 32.
  pub put-value_at :
      (empty : T) (t : Table T) (col row : ℕ) (v : T)
      → IsWhole t
      → col < t.cols_
      → (row + 1) * t.cols_ < u32
      → (t' : Table T) × (put empty t col row v ≡ ok t')
        × IsWhole t'
        × (t'.cols_ ≡ t.cols_)
        × ((c r : ℕ)
            → c < t.cols_
            → value_at empty t' c r
              ≡ (if (col == c) && (row == r) then v else value_at empty t c r))
        × (length t'.data_ ≡ (if ltb row (rows t) then length t.data_ else (row + 1) * t.cols_))
  put-value_at empty t col row v w hc hr =
      let l = locate-Located empty t col row w hc hr in
      (
        record (l.table) { data_ = set l.table.data_ (row * t.cols_ + col) v },
        put-Located empty t col row v l,
        set-IsWhole l.table (row * t.cols_ + col) v l.whole,
        l.same_cols,
        λ c r h. value_at-set empty t col row c r v l hc h,
        length-set l.table.data_ (row * t.cols_ + col) v ∙ l.length_is,
      )

  get-Located :
      (empty : T) (t : Table T) (col row : ℕ) (l : Located empty t col row)
      → get empty t col row ≡ ok (l.table, value_at empty t col row)
  unfolding get
  get-Located empty t col row l = ground (
    arith,
    l.found,
    l.same (row * t.cols_ + col),
    at-get_or empty l.table.data_ (row * t.cols_ + col) l.inside,
  )

  -- A cell that is read gives its value, the empty one past the last row; no value changes.
  pub get-value_at :
      (empty : T) (t : Table T) (col row : ℕ)
      → IsWhole t
      → col < t.cols_
      → (row + 1) * t.cols_ < u32
      → (t' : Table T) × (get empty t col row ≡ ok (t', value_at empty t col row))
        × ((c r : ℕ) → value_at empty t' c r ≡ value_at empty t c r)
  get-value_at empty t col row w hc hr =
      let l = locate-Located empty t col row w hc hr in
      (l.table, get-Located empty t col row l, λ c r. rw (l.same_cols) (l.same (r * t.cols_ + c)))
