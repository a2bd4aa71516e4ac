-- ===== src/Screen/Diffs.antt =====
-- src/screen.rs: `Diff::between` against `Snapshot::apply`.
use mathlib.Core.List.{append_assoc}
use super_herdr.Common.{
  zero, subst, inl, inr, ℕ, suc, ◌↔◌, ◌+◌, ◌%◌, ◌<◌, ◌≡◌, ◌≢◌, refl, sym, ap, ◌∙◌, true, none, some,
  List, [], ◌∷◌, ◌++◌, map, arith,
}
use super_herdr.Common.Tests.{Option-cases}
use super_herdr.Common.Lists.{length, get_elem?, set, length-append, All}
use super_herdr.Screen.{
  RowUpdate, Row, Snapshot, Diff, write_rows, apply, differing, changed_rows, row_update, between,
}

-- What `Snapshot::of` establishes: one row for each line, and a height that is a `u16`.
pub record IsSnapshot (s : Snapshot) : Type 0 where
  pub filled : length s.rows ≡ s.height
  pub narrow : s.height < 65536

get_elem?-append_length {ℓ} :
    {A : Type ℓ} (ps : List A) (x : A) (xs : List A)
    → get_elem? (ps ++ (x ∷ xs)) (length ps) ≡ some x
get_elem?-append_length [] x xs = refl
get_elem?-append_length (p ∷ ps) x xs = get_elem?-append_length ps x xs

set-append_length {ℓ} :
    {A : Type ℓ} (ps : List A) (x v : A) (xs : List A)
    → set (ps ++ (x ∷ xs)) (length ps) v ≡ ps ++ (v ∷ xs)
set-append_length [] x v xs = refl
set-append_length (p ∷ ps) x v xs = ap (◌∷◌ p) (set-append_length ps x v xs)

append_middle {ℓ} :
    {A : Type ℓ} (ps : List A) (x : A) (xs : List A) → (ps ++ (x ∷ [])) ++ xs ≡ ps ++ (x ∷ xs)
append_middle ps x xs = append_assoc ps (x ∷ []) xs

-- The rows `ps` are done; the updates for the rest turn the old rows into the new ones.
write_rows-differing :
    (current : Snapshot) (i : ℕ) (ps xs ys : List Row)
    → i ≡ length ps
    → length xs ≡ length ys
    → i + length xs < 65536
    → current.rows ≡ ps ++ xs
    → write_rows (ps ++ ys) (map (row_update current) (differing i xs ys)) ≡ (ps ++ xs, true)
unfolding write_rows differing row_update
write_rows-differing current i ps [] [] e l b r = refl
write_rows-differing current i ps [] (y ∷ ys) e l b r = absurd (omega arith)
write_rows-differing current i ps (x ∷ xs) [] e l b r = absurd (omega arith)
write_rows-differing current i ps (x ∷ xs) (y ∷ ys) e l b r =
    let ih =
      write_rows-differing current (suc i) (ps ++ (x ∷ [])) xs ys
        (omega (arith, length-append ps (x ∷ []))) (omega arith) (omega arith)
        (r ∙ sym (append_middle ps x xs)) in
    let index : i % 65536 ≡ length ps = omega arith in
    ground (
      arith,
      ih,
      index,
      append_middle ps x xs,
      append_middle ps x ys,
      get_elem?-append_length ps y ys,
      get_elem?-append_length ps x xs,
      set-append_length ps y x ys,
    )

-- Of two screens with a row for each line and a height that is a `u16`: applying their difference,
-- where there is one, to the older yields exactly the newer, its rows, its cursor and its sequence
-- number, and is not refused.
pub apply-between :
    (previous current : Snapshot) {diff : Diff}
    → IsSnapshot previous
    → IsSnapshot current
    → between previous current ≡ some diff
    → apply previous diff ≡ (current, none)
unfolding between apply changed_rows
apply-between previous current v w h =
    ground (arith, write_rows-differing current 0 [] current.rows previous.rows refl)

length-set {ℓ} : {A : Type ℓ} (xs : List A) (i : ℕ) (v : A) → length (set xs i v) ≡ length xs
length-set [] i v = refl
length-set (x ∷ xs) zero v = refl
length-set (x ∷ xs) (suc i) v = omega (arith, length-set xs i v)

get_elem?-lt {ℓ} : {A : Type ℓ} (xs : List A) (i : ℕ) → (get_elem? xs i ≢ none) ↔ (i < length xs)
get_elem?-lt [] i = (λ h. absurd (h refl), λ h. absurd (omega arith))
get_elem?-lt (x ∷ xs) zero = (λ h. omega arith, λ h. ground arith)
get_elem?-lt (x ∷ xs) (suc i) =
    (λ h. omega (arith, (get_elem?-lt xs i).0 h), λ h. (get_elem?-lt xs i).1 (omega arith))

abbrev pub Fits : ℕ → List RowUpdate → Type 0
Fits height updates = All (λ (update : RowUpdate). update.row < height) updates

write_rows_iff :
    (rows : List Row) (updates : List RowUpdate)
    → ((write_rows rows updates).1 ≡ true) ↔ Fits (length rows) updates
unfolding write_rows
write_rows_iff rows [] = (λ h. tt, λ h. refl)
write_rows_iff rows (update ∷ updates) =
    let rest = write_rows_iff (set rows update.row update.runs) updates in
    let same = length-set rows update.row update.runs in
    let there = get_elem?-lt rows update.row in
    elim (Option-cases (get_elem? rows update.row)) [
      | inl e ↦ rw (e, write_rows) ((λ h. absurd (ground (arith, h))), λ f. absurd (there.1 f.0 e))
      | inr (row, e) ↦
          rw (e, write_rows)
            (
              (λ h. (
                there.0 (λ n. ground (arith, e, n)),
                subst (λ n. Fits n updates) same (rest.0 h),
              )),
              λ f. rest.1 (subst (λ n. Fits n updates) (sym same) f.1),
            )
    ]

-- A difference is applied exactly if it follows the update that the screen holds and names only
-- rows that the screen has. If it follows another update, the screen is left as it was.
pub apply_iff :
    (s : Snapshot) (diff : Diff)
    → (((apply s diff).1 ≡ none) ↔ ((diff.follows ≡ s.sequence) × Fits (length s.rows) diff.rows))
      × (diff.follows ≢ s.sequence → (apply s diff).0 ≡ s)
unfolding apply
apply_iff s diff =
    let fits = write_rows_iff s.rows diff.rows in
    (
      (
        (λ h. (ground (arith, h), fits.0 (ground (arith, h)))),
        λ h. ground (arith, h.0, fits.1 h.1),
      ),
      λ h. ground (arith, h),
    )

-- There is a difference exactly when the size has not changed.
pub between_iff :
    (previous current : Snapshot)
    → (between previous current ≢ none)
      ↔ ((previous.width ≡ current.width) × (previous.height ≡ current.height))
unfolding between
between_iff previous current = (λ h. ground (arith, h), λ h. ground arith)
