-- ===== src/CuPow/Product/Entries.antt =====
-- A valid matrix of crates/pocomp-protocol/src/cupow.rs is the matrix of the function of its entries.
use native.Mathlib.Nat.{mod-lt, div-add-mod', div-lt_iff_lt-mul}
use verification_tooling.Prelude.{
  ℕ, zero, suc, ◌+◌, ◌*◌, ◌/◌, ◌%◌, ◌<◌, List, [], ◌∷◌, length, ◌≡◌, refl, sym, ◌∙◌, ap, ap₂, arith,
  Option, none, some, get_elem?,
}
use verification_tooling.CuPow.Matrix.{F251Matrix}
use verification_tooling.CuPow.Matrix.Laws.{Residues, IsMatrix}
use verification_tooling.CuPow.Product.Tables.{table, length-table, get-table}
use verification_tooling.CuPow.Product.Laws.{matrix}

list_ext :
    (xs ys : List ℕ)
    → length xs ≡ length ys
    → ((k : ℕ) → k < length xs → get_elem? xs k ≡ get_elem? ys k)
    → xs ≡ ys
list_ext [] [] h e = refl
list_ext [] (y ∷ ys) h e = absurd (omega arith)
list_ext (x ∷ xs) [] h e = absurd (omega arith)
list_ext (x ∷ xs) (y ∷ ys) h e =
    let head : some x ≡ some y = e 0 (omega arith) in
    let tail = list_ext xs ys (omega arith) (λ k b. e (suc k) (omega arith)) in
    ap₂ (λ v vs. v ∷ vs) (ground (arith, head)) tail

abbrev or_zero : Option ℕ → ℕ
or_zero none = 0
or_zero (some v) = v

-- The value at a row and a column.
abbrev pub value_at : F251Matrix → ℕ → ℕ → ℕ
value_at m i j = or_zero (get_elem? m.values (i * m.columns + j))

get-Residues :
    (vs : List ℕ) (k : ℕ)
    → Residues vs
    → k < length vs
    → get_elem? vs k ≡ some (or_zero (get_elem? vs k) % 251)
get-Residues [] k r h = absurd (omega arith)
get-Residues (v ∷ vs) zero r h = ap some (omega (arith, r.0))
get-Residues (v ∷ vs) (suc k) r h = get-Residues vs k r.1 (omega arith)

pub IsMatrix-value_at : (m : F251Matrix) → IsMatrix m → m ≡ matrix m.rows m.columns (value_at m)
IsMatrix-value_at m v =
    let cells : List ℕ = table m.columns (λ i j. value_at m i j % 251) 0 m.rows in
    let long : length cells ≡ m.rows * m.columns =
      length-table m.columns (λ i j. value_at m i j % 251) 0 m.rows in
    ap (λ vs. record { rows = m.rows; columns = m.columns; values = vs })
      (list_ext m.values cells (v.filled ∙ sym long) same)
  where
    zero_plus : (n : ℕ) → n ≡ 0 + n
    zero_plus n = omega arith

    same :
        (k : ℕ)
        → k < length m.values
        → get_elem? m.values k
          ≡ get_elem? (table m.columns (λ i j. value_at m i j % 251) 0 m.rows) k
    same k h =
        let row = k / m.columns in
        let column = k % m.columns in
        let split : row * m.columns + column ≡ k = div-add-mod' k m.columns in
        let low : column < m.columns = mod-lt k v.columns_pos in
        let inside : row < m.rows =
          (div-lt_iff_lt-mul v.columns_pos).1 (omega (arith, h, v.filled)) in
        let found =
          get-table m.columns (λ i j. value_at m i j % 251) 0 m.rows row column inside low in
        get-Residues m.values k v.residues h
        ∙ ap (λ q. some (or_zero (get_elem? m.values q) % 251)) (sym split)
        ∙ ap (λ q. some (value_at m q column % 251)) (zero_plus row)
        ∙ sym found
        ∙ ap (get_elem? (table m.columns (λ i j. value_at m i j % 251) 0 m.rows)) split
