-- ===== src/HeaderedTable/Access.antt =====
-- `cell` of src/HeaderedTable.cpp finds the column by its name.
use native.Mathlib.Nat.{mul-le-mul_right}
use native.Mathlib.Decide.{dec_lt}
use brenlib.Prelude.{
  ℕ, zero, suc, ◌+◌, ◌*◌, ◌≤◌, ◌<◌, false, ◌==◌, if◌then◌else◌, List, [], ◌∷◌, ◌++◌, length, none,
  some, ok, ◌≡◌, ◌≢◌, refl, arith, ap, ◌∙◌, sym, subst,
}
use brenlib.Prelude.Text.{Text, text_eq}
use brenlib.Prelude.Maps.{lookup, text_key, text_eq_iff}
use brenlib.Table.{Table, u32, rows}
use brenlib.Table.Places.{get_or, IsWhole, locate-Located, rows-count}
use brenlib.HeaderedTable.{
  HeaderedTable, Cells, make_headers_unique, insert_new, index_headers, indexed, reread,
  read_headers, column_of, cell,
}
use brenlib.HeaderedTable.Lengths.{length-make_headers_unique}
use brenlib.HeaderedTable.Rest.{make_headers_unique-rest}
use brenlib.HeaderedTable.Unique.{make_headers_unique-ne}

lookup_behind :
    (k name : Text) (c : ℕ) (m : List (Text × ℕ))
    → lookup k m ≡ none
    → lookup k (m ++ (name, c) ∷ []) ≡ (if text_eq name k then some c else none)
unfolding lookup
lookup_behind k name c [] h = refl
lookup_behind k name c ((j, d) ∷ m) h = ground (arith, h, lookup_behind k name c m)

lookup_front :
    (k name : Text) (c d : ℕ) (m : List (Text × ℕ))
    → lookup k m ≡ some d
    → lookup k (m ++ (name, c) ∷ []) ≡ some d
unfolding lookup
lookup_front k name c d [] h = cc
lookup_front k name c d ((j, e) ∷ m) h = ground (arith, h, lookup_front k name c d m)

lookup-none : (k : Text) → lookup {V = ℕ} k [] ≡ none
unfolding lookup
lookup-none k = refl

-- The map of the headers before column `c`.
record IsIndex (cells : List Text) (c : ℕ) (m : List (Text × ℕ)) : Type 0 where
  there : (i : ℕ) → i < c → lookup (get_or [] cells i) m ≡ some i
  absent : (k : Text) → ((i : ℕ) → i < c → get_or [] cells i ≢ k) → lookup k m ≡ none

insert_new_absent :
    (k : Text) (c : ℕ) (m : List (Text × ℕ))
    → lookup k m ≡ none
    → insert_new k c m ≡ m ++ (k, c) ∷ []
insert_new_absent k c m h = rw (insert_new, h) refl

insert_new-IsIndex :
    (cells : List Text) (c : ℕ) (m : List (Text × ℕ))
    → ((i : ℕ) → i < c → get_or [] cells i ≢ get_or [] cells c)
    → IsIndex cells c m
    → IsIndex cells (c + 1) (insert_new (get_or [] cells c) c m)
insert_new-IsIndex cells c m d x =
    let name = get_or [] cells c in
    let new = x.absent name d in
    subst (IsIndex cells (c + 1)) (sym (insert_new_absent name c m new)) (record {
      there = λ i h. elim (dec_lt i c) [
        | yes p ↦ lookup_front (get_or [] cells i) name c i m (x.there i p)
        | no p ↦
            let last : i ≡ c = omega arith in
            rw last (ground (arith, lookup_behind name name c m new, text_eq_iff name name))
      ];
      absent = λ k h. ground (
        arith,
        lookup_behind k name c m (x.absent k (λ i p. h i (omega arith))),
        text_eq_iff name k,
        h c (omega arith),
      );
    })

index_headers-IsIndex :
    (left cols c : ℕ) (cells : List Text) (m : List (Text × ℕ))
    → c + left ≡ cols
    → ((i j : ℕ) → i < j → j < cols → get_or [] cells i ≢ get_or [] cells j)
    → ((i : ℕ) → i < cols → length (get_or [] cells i) ≢ 0)
    → IsIndex cells c m
    → (m' : List (Text × ℕ)) × (index_headers left c cells m ≡ ok m') × IsIndex cells cols m'
unfolding index_headers
index_headers-IsIndex zero cols c cells m e d n x =
    (m, refl, subst (λ k. IsIndex cells k m) (omega arith) x)
index_headers-IsIndex (suc left) cols c cells m e d n x =
    let (m', f, y) =
      index_headers-IsIndex left cols (c + 1) cells (insert_new (get_or [] cells c) c m)
        (omega arith) d n (insert_new-IsIndex cells c m (λ i h. d i c h (omega arith)) x) in
    let named : (length (get_or [] cells c) == 0) ≡ false = ground (arith, n c (omega arith)) in
    (m', rw named f, y)

module _ (t : Table Text) (cells : List Text) where
  -- The table with its headers made different.
  abbrev headed : Table Text
  headed = record t { data_ = cells }

  headed-IsWhole : IsWhole t → make_headers_unique t ≡ (cells, ok tt) → IsWhole headed
  headed-IsWhole w e =
      let same : length cells ≡ length t.data_ =
        ap (λ (m : Cells). length (m.0)) (sym e) ∙ length-make_headers_unique t in
      record {
        count = w.count;
        whole = same ∙ w.whole;
        fits = rw same w.fits;
        some_column = w.some_column;
      }

  row_there : IsWhole t → 1 ≤ rows t → t.cols_ ≤ length t.data_
  row_there w r = omega (
    arith,
    w.whole,
    r,
    rows-count t w,
    mul-le-mul_right {m = 1} {n = w.count} t.cols_ (omega (arith, r, rows-count t w)),
  )

  different :
      t.cols_ ≤ length t.data_
      → t.cols_ < 65535
      → make_headers_unique t ≡ (cells, ok tt)
      → ((i j : ℕ) → i < j → j < t.cols_ → get_or [] cells i ≢ get_or [] cells j)
  different h few e =
      let (made, f, d) = make_headers_unique-ne t h few in
      subst (λ cs. (i j : ℕ) → i < j → j < t.cols_ → get_or [] cs i ≢ get_or [] cs j)
        (ap (λ (m : Cells). m.0) (sym f ∙ e)) d

  read_headers-reread :
      read_headers (record { table = t; hdrs_ = [] })
      ≡ reread (record { table = t; hdrs_ = [] }) (make_headers_unique t)
  unfolding read_headers
  read_headers-reread = refl

  read_headers-IsIndex :
      IsWhole t
      → 1 ≤ rows t
      → t.cols_ < 65535
      → make_headers_unique t ≡ (cells, ok tt)
      → ((i : ℕ) → i < t.cols_ → length (get_or [] cells i) ≢ 0)
      → (m : List (Text × ℕ)) × (read_headers (record { table = t; hdrs_ = [] })
          ≡ (record { table = headed; hdrs_ = m }, ok tt))
        × IsIndex cells t.cols_ m
  read_headers-IsIndex w r few e n =
      let enough : t.cols_ ≤ length t.data_ = row_there w r in
      let (m, f, x) =
        index_headers-IsIndex t.cols_ t.cols_ 0 cells [] (omega arith) (different enough few e) n
          (record { there = λ i h. absurd (omega arith); absent = λ k h. lookup-none k }) in
      (
        m,
        read_headers-reread
            ∙ (ap (reread (record { table = t; hdrs_ = [] })) e ∙ ap (indexed headed) f),
        x,
      )

  cell-column_of :
      (name : Text) (row : ℕ)
      → t.cols_ ≢ 0
      → rows t ≢ 0
      → length name ≢ 0
      → cell (record { table = t; hdrs_ = [] }) name row
        ≡ column_of (read_headers (record { table = t; hdrs_ = [] })) name row
  unfolding cell
  cell-column_of name row a b c = ground arith

  -- A column is found by the name that its header was given, in a row that is there or is added: the
  -- index is that of a cell, the headers are as they were made different, and every cell behind them is as
  -- it was; added ones are empty.
  pub cell-column :
      (c row : ℕ)
      → IsWhole t
      → 1 ≤ rows t
      → t.cols_ < 65535
      → make_headers_unique t ≡ (cells, ok tt)
      → ((i : ℕ) → i < t.cols_ → length (get_or [] cells i) ≢ 0)
      → c < t.cols_
      → (row + 1) * t.cols_ < u32
      → (s : HeaderedTable) × (cell (record { table = t; hdrs_ = [] }) (get_or [] cells c) row
          ≡ (s, ok (row * t.cols_ + c)))
        × (row * t.cols_ + c < length s.table.data_)
        × ((j : ℕ) → get_or [] s.table.data_ j ≡ get_or [] cells j)
        × ((j : ℕ) → get_or [] s.table.data_ (t.cols_ + j) ≡ get_or [] t.data_ (t.cols_ + j))
  cell-column c row w r few e n h k =
      let name = get_or [] cells c in
      let (m, read, x) = read_headers-IsIndex w r few e n in
      let l = locate-Located [] headed c row (headed-IsWhole w e) h k in
      (
        record { table = l.table; hdrs_ = m },
        cell-column_of name row (ground (arith, w.some_column)) (ground (arith, r)) (n c h)
            ∙ (ap (λ s. column_of s name row) read ∙ rw (column_of, x.there c h, l.found) refl),
        l.inside,
        l.same,
        λ j.
            l.same (t.cols_ + j)
            ∙ (ap (λ (made : Cells). get_or [] made.0 (t.cols_ + j)) (sym e)
                ∙ make_headers_unique-rest t j),
      )
