-- ===== src/Table/Places.antt =====
-- The places of a table of hdr/bren/Table.hpp, and what `cell` does to them.
use native.Mathlib.Nat.{mod-eq_of_lt, mul-div_cancel, mul_comm, mul-le-mul_right}
use native.Mathlib.Decide.{dec_lt}
use brenlib.Prelude.{
  ℕ, zero, suc, ◌+◌, ◌-◌, ◌*◌, ◌%◌, ◌≤◌, ◌<◌, ◌&&◌, ltb, ◌==◌, if◌then◌else◌, List, [], ◌∷◌, some,
  length, get_elem?, set, take, replicate, ok, ◌≡◌, refl, arith, ap, length-append, length-take,
  length-replicate,
}
use brenlib.Table.{Table, u32, rows, set_rows, resize, locate}

count_lt : (n cols : ℕ) → 1 ≤ cols → n * cols < u32 → n < u32
count_lt n cols h hr = grind arith

pub row_lt : (row cols : ℕ) → 1 ≤ cols → (row + 1) * cols < u32 → row + 1 < u32
row_lt row cols h hr = grind arith

place_mod :
    (col row cols : ℕ)
    → col < cols
    → (row + 1) * cols < u32
    → (row * cols + col) % u32 ≡ row * cols + col
place_mod col row cols h hr = mod-eq_of_lt (omega arith)

place_inj :
    (col row c r cols : ℕ)
    → col < cols
    → c < cols
    → row * cols + col ≡ r * cols + c
    → (row ≡ r) × (col ≡ c)
place_inj col row c r cols h k e = elim (dec_lt row r) [
  | yes p ↦ absurd (omega (arith, mul-le-mul_right {m = row + 1} {n = r} cols (omega arith)))
  | no p ↦ elim (dec_lt r row) [
    | yes q ↦ absurd (omega (arith, mul-le-mul_right {m = r + 1} {n = row} cols (omega arith)))
    | no q ↦ let same : row ≡ r = omega arith in (same, omega (arith, ap (λ x. x * cols) same))
  ]
]

pub place_eq :
    (col row c r cols : ℕ)
    → col < cols
    → c < cols
    → ((row * cols + col) == (r * cols + c)) ≡ ((col == c) && (row == r))
place_eq col row c r cols h k = grind (arith, place_inj col row c r cols h k)

module _ {ℓ} {T : Type ℓ} where
  abbrev pub get_or : T → List T → ℕ → T
  get_or d [] i = d
  get_or d (x ∷ xs) zero = x
  get_or d (x ∷ xs) (suc i) = get_or d xs i

  -- The value at a place; the empty one where there is no row yet.
  abbrev pub value_at : T → Table T → ℕ → ℕ → T
  value_at empty t col row = get_or empty t.data_ (row * t.cols_ + col)

  -- Only whole rows are stored, and fewer than 2 ^ 32 cells.
  pub record IsWhole (t : Table T) : Type 0 where
    pub count : ℕ
    pub whole : length t.data_ ≡ count * t.cols_
    pub fits : length t.data_ < u32
    pub some_column : 1 ≤ t.cols_

  pub get_or-set :
      (d : T) (xs : List T) (i j : ℕ) (v : T)
      → i < length xs
      → get_or d (set xs i v) j ≡ (if i == j then v else get_or d xs j)
  get_or-set d [] i j v h = elim h [ ]
  get_or-set d (x ∷ xs) zero zero v h = refl
  get_or-set d (x ∷ xs) zero (suc j) v h = ground arith
  get_or-set d (x ∷ xs) (suc i) zero v h = ground arith
  get_or-set d (x ∷ xs) (suc i) (suc j) v h = ground (arith, get_or-set d xs i j v)

  get_or-replicate : (d : T) (n j : ℕ) → get_or d (replicate n d) j ≡ d
  get_or-replicate d zero j = refl
  get_or-replicate d (suc n) zero = refl
  get_or-replicate d (suc n) (suc j) = get_or-replicate d n j

  -- Growing a vector by empty values changes no value.
  get_or-resize :
      (d : T) (n : ℕ) (xs : List T) (j : ℕ)
      → length xs ≤ n
      → get_or d (resize d n xs) j ≡ get_or d xs j
  get_or-resize d zero [] j h = refl
  get_or-resize d (suc n) [] j h = get_or-replicate d (suc n - 0) j
  get_or-resize d zero (x ∷ xs) j h = elim h [ ]
  get_or-resize d (suc n) (x ∷ xs) zero h = refl
  get_or-resize d (suc n) (x ∷ xs) (suc j) h = ground (arith, get_or-resize d n xs j (omega arith))

  length-resize : (d : T) (n : ℕ) (xs : List T) → length (resize d n xs) ≡ n
  length-resize d n xs = omega (
    arith,
    length-append (take n xs) (replicate (n - length xs) d),
    length-take n xs,
    length-replicate (n - length xs) d,
  )

  get_elem?-in : (xs : List T) (i : ℕ) → i < length xs → (x : T) × (get_elem? xs i ≡ some x)
  get_elem?-in [] i h = elim h [ ]
  get_elem?-in (x ∷ xs) zero h = (x, refl)
  get_elem?-in (x ∷ xs) (suc i) h = get_elem?-in xs i (omega arith)

  pub rows-count : (t : Table T) (w : IsWhole t) → rows t ≡ w.count
  unfolding rows
  rows-count t w =
      rw (w.whole, mul-div_cancel w.count w.some_column)
        (ground (arith, mod-eq_of_lt (count_lt w.count t.cols_ w.some_column (omega arith))))

  -- The number of rows by the number of cells.
  pub rows_of : (t : Table T) (n : ℕ) → IsWhole t → length t.data_ ≡ n * t.cols_ → rows t ≡ n
  rows_of t n w h =
      rows-count t (record { count = n; whole = h; fits = w.fits; some_column = w.some_column })

  -- A table grown to `row + 1` rows.
  abbrev grown : T → Table T → ℕ → Table T
  grown empty t row = record t { data_ = resize empty ((row + 1) * t.cols_) t.data_ }

  set_rows-grown :
      (empty : T) (t : Table T) (row : ℕ)
      → 1 ≤ t.cols_
      → (row + 1) * t.cols_ < u32
      → set_rows empty t ((row + 1) % u32) ≡ ok (grown empty t row)
  unfolding set_rows
  set_rows-grown empty t row h hr =
      let r : (row + 1) % u32 ≡ row + 1 = mod-eq_of_lt (row_lt row t.cols_ h hr) in
      let p : t.cols_ * (row + 1) % u32 ≡ (row + 1) * t.cols_ =
        omega (arith, mod-eq_of_lt hr, mul_comm t.cols_ (row + 1)) in
      rw (r, p) (ground arith)

  locate-grown :
      (empty : T) (t : Table T) (w : IsWhole t) (col row : ℕ)
      → col < t.cols_
      → (row + 1) * t.cols_ < u32
      → w.count ≤ row
      → locate empty t col row ≡ ok (grown empty t row, row * t.cols_ + col)
  unfolding locate
  locate-grown empty t w col row hc hr hg = ground (
    arith,
    rows-count t w,
    set_rows-grown empty t row w.some_column hr,
    place_mod col row t.cols_ hc hr,
  )

  locate_there :
      (empty : T) (t : Table T) (w : IsWhole t) (col row : ℕ)
      → col < t.cols_
      → (row + 1) * t.cols_ < u32
      → row < w.count
      → locate empty t col row ≡ ok (t, row * t.cols_ + col)
  unfolding locate
  locate_there empty t w col row hc hr hg =
      ground (arith, rows-count t w, place_mod col row t.cols_ hc hr)

  -- The table after `cell`, and what is known of it.
  pub record Located (empty : T) (t : Table T) (col row : ℕ) : Type ℓ where
    pub table : Table T
    pub found : locate empty t col row ≡ ok (table, row * t.cols_ + col)
    pub whole : IsWhole table
    pub same_cols : table.cols_ ≡ t.cols_
    pub inside : row * t.cols_ + col < length table.data_
    pub same : (j : ℕ) → get_or empty table.data_ j ≡ get_or empty t.data_ j
    pub length_is :
        length table.data_ ≡ (if ltb row (rows t) then length t.data_ else (row + 1) * t.cols_)

  pub locate-Located :
      (empty : T) (t : Table T) (col row : ℕ)
      → IsWhole t
      → col < t.cols_
      → (row + 1) * t.cols_ < u32
      → Located empty t col row
  locate-Located empty t col row w hc hr = elim (dec_lt row w.count) [
    | yes p ↦ record {
      table = t;
      found = locate_there empty t w col row hc hr p;
      whole = w;
      same_cols = refl;
      inside =
          omega
            (arith, w.whole, mul-le-mul_right {m = row + 1} {n = w.count} t.cols_ (omega arith));
      same = λ j. refl;
      length_is = ground (arith, rows-count t w);
    }
    | no p ↦ record {
      table = grown empty t row;
      found = locate-grown empty t w col row hc hr (omega arith);
      whole = record {
        count = row + 1;
        whole = length-resize empty ((row + 1) * t.cols_) t.data_;
        fits = rw (length-resize empty ((row + 1) * t.cols_) t.data_) hr;
        some_column = w.some_column;
      };
      same_cols = refl;
      inside = rw (length-resize empty ((row + 1) * t.cols_) t.data_) (omega arith);
      same = λ j.
          get_or-resize empty ((row + 1) * t.cols_) t.data_ j (
            omega (arith, w.whole, mul-le-mul_right {m = w.count} {n = row} t.cols_ (omega arith)));
      length_is = ground (arith, rows-count t w, length-resize empty ((row + 1) * t.cols_) t.data_);
    }
  ]
