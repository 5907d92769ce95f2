-- ===== src/HeaderedTable/Unique.antt =====
-- The headers that src/HeaderedTable.cpp makes are all different.
use native.Mathlib.Decide.{dec_lt}
use brenlib.Prelude.{
  ℕ, zero, suc, ◌+◌, ◌-◌, ◌≤◌, ◌<◌, Bool, true, false, ◌==◌, List, [], ◌∷◌, length, set, take,
  Result, ok, err, ◌≡◌, ◌≢◌, refl, arith, Bool-cases, inl, inr, ==_iff, length-set, length-take,
  subst,
}
use brenlib.Prelude.Text.{Text, text_eq}
use brenlib.Prelude.Maps.{text_eq_iff}
use brenlib.Table.{Table}
use brenlib.Table.Places.{get_or, get_or-set}
use brenlib.HeaderedTable.Names.{unique_name-found}
use brenlib.HeaderedTable.{
  taken, candidate, unique_name, Cells, ◌then_do◌, store_name, rename, rename_from, unique_from,
  make_headers_unique,
}

-- A name that is not taken differs from every header.
taken-ne :
    (n p : ℕ) (cells : List Text) (name : Text)
    → taken (take n cells) name ≡ false
    → p < n
    → p < length cells
    → get_or [] cells p ≢ name
unfolding taken
taken-ne zero p cells name h k l = elim k [ ]
taken-ne (suc n) p [] name h k l = elim l [ ]
taken-ne (suc n) zero (c ∷ cs) name h k l = ground (arith, text_eq_iff c name)
taken-ne (suc n) (suc p) (c ∷ cs) name h k l =
    taken-ne n p cs name (ground arith) (omega arith) (omega arith)

unique_name-free :
    (left a : ℕ) (base name : Text) (hs : List Text)
    → unique_name left a base hs ≡ ok name
    → taken hs name ≡ false
unfolding unique_name
unique_name-free zero a base name hs h = cc
unique_name-free (suc left) a base name hs h = elim (Bool-cases (taken hs (candidate base a))) [
  | inl e ↦ unique_name-free left (a + 1) base name hs (rw e at h)
  | inr e ↦ ground (arith, e, rw e at h)
]

-- The headers before `c` differ from all behind them, and the header `c` from those before `d`.
record Settled (cols c d : ℕ) (cells : List Text) : Type 0 where
  enough : cols ≤ length cells
  earlier : (i j : ℕ) → i < c → i < j → j < cols → get_or [] cells i ≢ get_or [] cells j
  current : (j : ℕ) → c < j → j < d → get_or [] cells c ≢ get_or [] cells j

abbrev IfSettled : ℕ → ℕ → ℕ → Cells → Type 0
IfSettled cols c d (cells, ok u) = Settled cols c d cells
IfSettled cols c d (cells, err e) = ⊥

absurd_test : {b : Bool} → b ≡ false → b ≡ true → ⊥
absurd_test h k = cc

rename-same :
    (cols c d : ℕ) (cells : List Text)
    → text_eq (get_or [] cells c) (get_or [] cells d) ≡ false
    → Settled cols c d cells
    → Settled cols c (d + 1) cells
rename-same cols c d cells h s = record {
  enough = s.enough;
  earlier = s.earlier;
  current = λ j p q. elim (dec_lt j d) [
    | yes r ↦ s.current j p r
    | no r ↦
        let last : j ≡ d = omega arith in
        rw last (λ e. absurd_test h ((text_eq_iff (get_or [] cells c) (get_or [] cells d)).1 e))
  ];
}

module _ (cells : List Text) (d : ℕ) (name : Text) (inside : d < length cells) where
  at_other : (i : ℕ) → i ≢ d → get_or [] (set cells d name) i ≡ get_or [] cells i
  at_other i h = ground (arith, get_or-set [] cells d i name inside)

  at_self : get_or [] (set cells d name) d ≡ name
  at_self = ground (arith, get_or-set [] cells d d name inside)

  -- Two places that differ before and after the new name is stored.
  apart :
      (i j : ℕ)
      → i ≢ d
      → get_or [] cells i ≢ name
      → (j ≢ d → get_or [] cells i ≢ get_or [] cells j)
      → get_or [] (set cells d name) i ≢ get_or [] (set cells d name) j
  apart i j h n k = elim (Bool-cases (j == d)) [
    | inl e ↦ rw (at_other i h, (==_iff j d).0 e, at_self) n
    | inr e ↦ let other : j ≢ d = ground arith in rw (at_other i h, at_other j other) (k other)
  ]

rename-new :
    (cols c d : ℕ) (cells : List Text) (name : Text)
    → c < d
    → d < cols
    → taken (take cols cells) name ≡ false
    → Settled cols c d cells
    → Settled cols c (d + 1) (set cells d name)
rename-new cols c d cells name h k t s =
    let inside : d < length cells = omega (arith, s.enough) in
    let free = λ (i : ℕ) (p : i < cols). taken-ne cols i cells name t p (omega (arith, s.enough)) in
    record {
      enough = omega (arith, s.enough, length-set cells d name);
      earlier = λ i j p q r.
          apart cells d name inside i j (omega arith) (free i (omega arith))
            (λ _. s.earlier i j p q r);
      current = λ j p q.
          apart cells d name inside c j (omega arith) (free c (omega arith))
            (λ n. s.current j p (omega arith));
    }

store-IfSettled :
    (cols c d : ℕ) (cells : List Text) (r : Result Text)
    → c < d
    → d < cols
    → (name : Text) × (r ≡ ok name)
    → ((name : Text) → r ≡ ok name → taken (take cols cells) name ≡ false)
    → Settled cols c d cells
    → IfSettled cols c (d + 1) (store_name d cells r)
store-IfSettled cols c d cells (ok name) h k f t s =
    rename-new cols c d cells name h k (t name refl) s
store-IfSettled cols c d cells (err e) h k (name, f) t s = absurd (cc)

rename-IfSettled :
    (cols c d : ℕ) (cells : List Text)
    → c < d
    → d < cols
    → cols < 65535
    → Settled cols c d cells
    → IfSettled cols c (d + 1) (rename cols c d cells)
unfolding rename
rename-IfSettled cols c d cells h k few s =
    let base = get_or [] cells d in
    elim (Bool-cases (text_eq (get_or [] cells c) base)) [
      | inl e ↦
          rw (e, rename)
            (store-IfSettled cols c d cells (unique_name 65535 0 base (take cols cells)) h k
              (unique_name-found base (take cols cells) (omega (arith, length-take cols cells)))
              (λ name f. unique_name-free 65535 0 base name (take cols cells) f) s)
      | inr e ↦ rw (e, rename) (rename-same cols c d cells e s)
    ]

then-IfSettled :
    (cols c d c' d' : ℕ) (m : Cells) (f : List Text → Cells)
    → IfSettled cols c d m
    → ((cells : List Text) → Settled cols c d cells → IfSettled cols c' d' (f cells))
    → IfSettled cols c' d' (m then_do f)
then-IfSettled cols c d c' d' (cells, ok u) f h k = k cells h
then-IfSettled cols c d c' d' (cells, err e) f h k = h

rename_from-IfSettled :
    (left cols c d : ℕ) (cells : List Text)
    → c < d
    → d + left ≡ cols
    → cols < 65535
    → Settled cols c d cells
    → IfSettled cols c cols (rename_from left cols c d cells)
unfolding rename_from
rename_from-IfSettled zero cols c d cells h k few s =
    subst (λ n. Settled cols c n cells) (omega arith) s
rename_from-IfSettled (suc left) cols c d cells h k few s =
    then-IfSettled cols c (d + 1) c cols (rename cols c d cells) _
      (rename-IfSettled cols c d cells h (omega arith) few s)
      (λ cells' s'.
        rename_from-IfSettled left cols c (d + 1) cells' (omega arith) (omega arith) few s')

-- The header `c` is done: go on with the next one.
advance :
    (cols c : ℕ) (cells : List Text)
    → Settled cols c cols cells
    → Settled cols (c + 1) (c + 1 + 1) cells
advance cols c cells s = record {
  enough = s.enough;
  earlier = λ i j p q r. elim (dec_lt i c) [
    | yes k ↦ s.earlier i j k q r
    | no k ↦ let last : i ≡ c = omega arith in rw last (s.current j (omega arith) r)
  ];
  current = λ j p q. absurd (omega arith);
}

unique_from-IfSettled :
    (left cols c : ℕ) (cells : List Text)
    → c + left ≡ cols
    → cols < 65535
    → Settled cols c (c + 1) cells
    → IfSettled cols cols (cols + 1) (unique_from left cols c cells)
unfolding unique_from
unique_from-IfSettled zero cols c cells k few s =
    subst (λ n. Settled cols n (n + 1) cells) (omega arith) s
unique_from-IfSettled (suc left) cols c cells k few s =
    then-IfSettled cols c cols cols (cols + 1) (rename_from (cols - (c + 1)) cols c (c + 1) cells) _
      (rename_from-IfSettled (cols - (c + 1)) cols c (c + 1) cells (omega arith) (omega arith) few
        s)
      (λ cells' s'.
        unique_from-IfSettled left cols (c + 1) cells' (omega arith) few (advance cols c cells' s'))

all_ne :
    (cols : ℕ) (r : Cells)
    → IfSettled cols cols (cols + 1) r
    → (cells : List Text) × (r ≡ (cells, ok tt))
      × ((i j : ℕ) → i < j → j < cols → get_or [] cells i ≢ get_or [] cells j)
all_ne cols (cells, ok u) s = (cells, refl, λ i j p q. s.earlier i j (omega arith) p q)
all_ne cols (cells, err e) s = absurd s

-- The headers of a table that has a row, and fewer than 2 ^ 16 - 1 columns, are made different, each
-- from all others, without an exception.
pub make_headers_unique-ne :
    (t : Table Text)
    → t.cols_ ≤ length t.data_
    → t.cols_ < 65535
    → (cells : List Text) × (make_headers_unique t ≡ (cells, ok tt))
      × ((i j : ℕ) → i < j → j < t.cols_ → get_or [] cells i ≢ get_or [] cells j)
unfolding make_headers_unique
make_headers_unique-ne t h few =
    let start : Settled t.cols_ 0 1 t.data_ = record {
      enough = h;
      earlier = λ a b x y z. absurd (omega arith);
      current = λ a x y. absurd (omega arith);
    } in
    all_ne t.cols_ (unique_from t.cols_ t.cols_ 0 t.data_)
      (unique_from-IfSettled t.cols_ t.cols_ 0 t.data_ (omega arith) few start)
