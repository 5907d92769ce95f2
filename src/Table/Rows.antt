-- ===== src/Table/Rows.antt =====
-- Values that are assigned to the cells of a row of hdr/bren/Table.hpp, one after the other.
use native.Mathlib.Decide.{dec_lt}
use brenlib.Prelude.{
  ℕ, suc, ◌+◌, ◌-◌, ◌*◌, ◌<◌, ◌&&◌, leb, ◌==◌, if◌then◌else◌, List, [], ◌∷◌, length, ok, ◌≡◌, refl,
  arith, ◌∙◌, ap,
}
use brenlib.Table.{Table, u32, put}
use brenlib.Table.Places.{get_or, value_at, IsWhole, rows_of}
use brenlib.Table.Cells.{put-value_at}

module _ {ℓ} {T : Type ℓ} where
  -- The value at column `c` of row `r` when `fs` stands in `row` from `col` on, and `d` was there.
  abbrev pub after_row : T → ℕ → ℕ → List T → ℕ → ℕ → T
  after_row d row col fs c r = if (row == r) && leb col c then get_or d fs (c - col) else d

  after_row-cons :
      (d f : T) (row col : ℕ) (fs : List T) (c r : ℕ)
      → after_row (if (col == c) && (row == r) then f else d) row (col + 1) fs c r
        ≡ after_row d row col (f ∷ fs) c r
  after_row-cons d f row col fs c r = elim (dec_lt c col) [
    | yes p ↦ ground arith
    | no p ↦ elim (dec_lt col c) [
      | yes q ↦ let n : c - col ≡ suc (c - (col + 1)) = omega arith in rw n (ground arith)
      | no q ↦ let n : c - col ≡ 0 = omega arith in rw n (ground arith)
    ]
  ]

  -- The number of rows behind those values, if there were `row` rows before.
  abbrev pub reached : ℕ → List T → ℕ
  reached row [] = row
  reached row (f ∷ fs) = row + 1

  -- The table `t'` is `t` with `fs` in `row` from `col` on.
  pub record Stored (empty : T) (t : Table T) (row col : ℕ) (fs : List T) (t' : Table T)
      : Type ℓ where
    pub whole : IsWhole t'
    pub same_cols : t'.cols_ ≡ t.cols_
    pub cells :
        (c r : ℕ)
        → c < t.cols_
        → value_at empty t' c r ≡ after_row (value_at empty t c r) row col fs c r
    pub begins : length t.data_ ≡ row * t.cols_ → length t'.data_ ≡ reached row fs * t.cols_
    pub goes_on : length t.data_ ≡ (row + 1) * t.cols_ → length t'.data_ ≡ (row + 1) * t.cols_

  pub Stored-none :
      (empty : T) (t : Table T) (row col : ℕ) → IsWhole t → Stored empty t row col [] t
  Stored-none empty t row col w = record {
    whole = w;
    same_cols = refl;
    cells = λ c r h. ground arith;
    begins = λ h. h;
    goes_on = λ h. h;
  }

  -- One value, and then those behind it.
  pub Stored-put :
      (empty : T) (t : Table T) (row col : ℕ) (f : T)
      → IsWhole t
      → col < t.cols_
      → (row + 1) * t.cols_ < u32
      → (t₁ : Table T) × (put empty t col row f ≡ ok t₁)
        × IsWhole t₁
        × (t₁.cols_ ≡ t.cols_)
        × ((fs : List T) (t' : Table T)
            → Stored empty t₁ row (col + 1) fs t'
            → Stored empty t row col (f ∷ fs) t')
  Stored-put empty t row col f w hc hr =
      let (t₁, p, w₁, s₁, v₁, n₁) = put-value_at empty t col row f w hc hr in
      let new : length t.data_ ≡ row * t.cols_ → length t₁.data_ ≡ (row + 1) * t.cols_ =
        λ h. ground (arith, n₁, rows_of t row w h) in
      let old : length t.data_ ≡ (row + 1) * t.cols_ → length t₁.data_ ≡ (row + 1) * t.cols_ =
        λ h. ground (arith, n₁, rows_of t (row + 1) w h, h) in
      (
        t₁,
        p,
        w₁,
        s₁,
        λ fs t' s. record {
          whole = s.whole;
          same_cols = s.same_cols ∙ s₁;
          cells = λ c r h.
              s.cells c r (rw s₁ h)
              ∙ (ap (λ d. after_row d row (col + 1) fs c r) (v₁ c r h)
                  ∙ after_row-cons (value_at empty t c r) f row col fs c r);
          begins = λ h. rw (← s₁) (s.goes_on (rw s₁ (new h)));
          goes_on = λ h. rw (← s₁) (s.goes_on (rw s₁ (old h)));
        },
      )
