-- ===== src/CuPow/Matrix/Laws.antt =====
-- About `F251Matrix::new`, `add` and `subtract` of crates/pocomp-protocol/src/cupow.rs.
use verification_tooling.Prelude.{
  ℕ, ◌*◌, ◌<◌, List, [], ◌∷◌, false, length, All, ◌≡◌, ◌↔◌, refl, ap₂, sym, ◌∙◌, arith, ok,
}
use verification_tooling.CuPow.Matrix.{
  F251Matrix, any_outside, new, zip_map, add_f251, subtract_f251, add, subtract,
}

abbrev pub Residues : List ℕ → Type 0
Residues = All (λ v. v < 251)

-- Positive dimensions, a value for each position, and residues alone.
pub record IsMatrix (m : F251Matrix) : Type 0 where
  pub rows_pos : 0 < m.rows
  pub columns_pos : 0 < m.columns
  pub filled : length m.values ≡ m.rows * m.columns
  pub residues : Residues m.values

any_outside_iff : (vs : List ℕ) → (any_outside vs ≡ false) ↔ Residues vs
unfolding any_outside
any_outside_iff [] = (λ h. tt, λ r. refl)
any_outside_iff (v ∷ vs) = (
  λ h. (ground arith, (any_outside_iff vs).0 (ground arith)),
  λ r. ground (arith, (any_outside_iff vs).1 r.1),
)

new-IsMatrix : (r c : ℕ) (vs : List ℕ) (m : F251Matrix) → new r c vs ≡ ok m → IsMatrix m
unfolding new
new-IsMatrix r c vs m h = record {
  rows_pos = ground arith;
  columns_pos = ground arith;
  filled = ground arith;
  residues = (any_outside_iff m.values).0 (ground arith);
}

pub IsMatrix-new : (m : F251Matrix) → IsMatrix m → new m.rows m.columns m.values ≡ ok m
unfolding new
IsMatrix-new m v = ground (arith, (any_outside_iff m.values).1 v.residues)

-- `F251Matrix::new` builds a matrix exactly from its own dimensions and values, where these are
-- valid.
new_iff :
    (r c : ℕ) (vs : List ℕ) (m : F251Matrix)
    → (new r c vs ≡ ok m) ↔ (IsMatrix m × (m ≡ record { rows = r; columns = c; values = vs }))
unfolding new
new_iff r c vs m =
    (λ h. (new-IsMatrix r c vs m h, ground arith), λ (v, e). ground (arith, IsMatrix-new m v))

module _ (f : ℕ → ℕ → ℕ) where
  length-zip_map : (xs ys : List ℕ) → length xs ≡ length ys → length (zip_map f xs ys) ≡ length xs
  unfolding zip_map
  length-zip_map [] ys h = refl
  length-zip_map (a ∷ xs) [] h = absurd (omega arith)
  length-zip_map (a ∷ xs) (b ∷ ys) h = omega (arith, length-zip_map xs ys)

  zip_map-Residues : ((a b : ℕ) → f a b < 251) → (xs ys : List ℕ) → Residues (zip_map f xs ys)
  unfolding zip_map
  zip_map-Residues small [] ys = tt
  zip_map-Residues small (a ∷ xs) [] = tt
  zip_map-Residues small (a ∷ xs) (b ∷ ys) = (small a b, zip_map-Residues small xs ys)

add_small : (a b : ℕ) → add_f251 a b < 251
unfolding add_f251
add_small a b = omega arith

undone : (a b : ℕ) → a < 251 → b < 251 → subtract_f251 (add_f251 a b) b ≡ a
unfolding add_f251 subtract_f251
undone a b ha hb = omega arith

all_undone :
    (xs ys : List ℕ)
    → length xs ≡ length ys
    → Residues xs
    → Residues ys
    → zip_map subtract_f251 (zip_map add_f251 xs ys) ys ≡ xs
unfolding zip_map
all_undone [] ys h ra rb = refl
all_undone (a ∷ xs) [] h ra rb = absurd (omega arith)
all_undone (a ∷ xs) (b ∷ ys) h ra rb =
    ap₂ (λ v vs. v ∷ vs) (undone a b ra.0 rb.0) (all_undone xs ys (omega arith) ra.1 rb.1)

-- For two valid matrices over F251 of one shape the addition succeeds with a valid matrix, and
-- subtracting the second from the sum gives the first back.
pub add-subtract :
    (a b : F251Matrix)
    → IsMatrix a
    → IsMatrix b
    → a.rows ≡ b.rows
    → a.columns ≡ b.columns
    → (c : F251Matrix) × (add a b ≡ ok c) × IsMatrix c × (subtract c b ≡ ok a)
unfolding add subtract
add-subtract a b va vb hr hc =
    let lengths : length a.values ≡ length b.values =
      va.filled ∙ ap₂ (λ r k. r * k) hr hc ∙ sym vb.filled in
    let values = zip_map add_f251 a.values b.values in
    let c : F251Matrix = record a { values = values } in
    let vc : IsMatrix c = record {
      rows_pos = va.rows_pos;
      columns_pos = va.columns_pos;
      filled = length-zip_map add_f251 a.values b.values lengths ∙ va.filled;
      residues = zip_map-Residues add_f251 add_small a.values b.values;
    } in
    (
      c,
      ground (arith, IsMatrix-new c vc),
      vc,
      ground
          (arith, IsMatrix-new a va, all_undone a.values b.values lengths va.residues vb.residues),
    )
