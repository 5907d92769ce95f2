-- ===== src/Table.antt =====
-- hdr/bren/Table.hpp: a table kept as one vector, row after row. `empty` is the value `T()`. Row and
-- cell numbers are of 32 bits, so products wrap.
pub mod Places
pub mod Cells
pub mod Rows
pub mod Grids
mod Checks
mod Tests
use brenlib.Prelude.{
  ℕ, zero, suc, ◌+◌, ◌-◌, ◌*◌, ◌/◌, ◌%◌, ◌^◌, Bool, true, false, not, ◌&&◌, ◌||◌, ltb, leb, ◌==◌,
  if◌then◌else◌, List, [], ◌∷◌, ◌++◌, Option, none, some, length, get_elem?, set, take, replicate,
  Result, ok, err, Error, invalid_argument, logic_error, out_of_range, ◌>>=◌, ◌>>◌, fcet,
}

pub record Table {ℓ} (T : Type ℓ) : Type ℓ where
  pub cols_ : ℕ
  pub data_ : List T

abbrev pub u32 : ℕ
u32 = 2 ^ 32

module _ {ℓ} {T : Type ℓ} where
  unfoldable pub create : Table T
  create = record { cols_ = 0; data_ = [] }

  -- `columns(columns_i)`
  unfoldable pub set_columns : Table T → ℕ → Result (Table T)
  set_columns t n = do
    fcet (not (n == 0)) invalid_argument
    fcet (t.cols_ == 0 || n == t.cols_) logic_error
    ok (record t { cols_ = n })

  -- `rows()`
  unfoldable pub rows : Table T → ℕ
  rows t = if t.cols_ == 0 then 0 else length t.data_ / t.cols_ % u32

  -- std::vector::resize
  abbrev pub resize : T → ℕ → List T → List T
  resize empty n xs = take n xs ++ replicate (n - length xs) empty

  -- `rows(rows_i)`
  unfoldable pub set_rows : T → Table T → ℕ → Result (Table T)
  set_rows empty t n = do
    fcet (not (t.cols_ == 0)) logic_error
    ok (record t { data_ = resize empty (t.cols_ * n % u32) t.data_ })

  -- `cell` up to the access: the table, grown where that is needed, and the index in the vector.
  unfoldable pub locate : T → Table T → ℕ → ℕ → Result (Table T × ℕ)
  locate empty t col row = do
    fcet (not (t.cols_ == 0)) logic_error
    fcet (ltb col t.cols_) out_of_range
    t' ← if leb (rows t) row then set_rows empty t ((row + 1) % u32) else ok t
    ok (t', (row * t.cols_ + col) % u32)

  abbrev pub at : List T → ℕ → Result T
  at xs i = elim (get_elem? xs i) [ none ↦ err out_of_range | some x ↦ ok x ]

  -- `cell` read: the table may have grown.
  unfoldable pub get : T → Table T → ℕ → ℕ → Result (Table T × T)
  unfolding locate
  get empty t col row = do
    found ← locate empty t col row
    x ← at (found.0).data_ found.1
    ok (found.0, x)

  -- `cell` assigned to
  unfoldable pub put : T → Table T → ℕ → ℕ → T → Result (Table T)
  unfolding locate
  put empty t col row v = do
    found ← locate empty t col row
    x ← at (found.0).data_ found.1
    ok (record (found.0) { data_ = set (found.0).data_ found.1 v })
