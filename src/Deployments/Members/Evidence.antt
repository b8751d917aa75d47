-- ===== src/Deployments/Members/Evidence.antt =====
-- What the records of a rollback keep.
use yokai.Prelude.{
  String, eq_iff, ◌≡◌, refl, false, ◌||◌, List, [], ◌∷◌, ◌++◌, arith, Bool-cases, inl, inr,
}
use yokai.Deployments.Members.{contains, append_unique_strings}

-- No text stands twice.
abbrev pub IsDistinct : List String → Type 0
IsDistinct [] = Unit
IsDistinct (x ∷ xs) = (contains x xs ≡ false) × IsDistinct xs

contains-append :
    (v : String) (xs ys : List String) → contains v (xs ++ ys) ≡ (contains v xs || contains v ys)
unfolding contains
contains-append v [] ys = refl
contains-append v (x ∷ xs) ys = ground (arith, contains-append v xs ys)

append_one-IsDistinct :
    (v : String) (xs : List String)
    → contains v xs ≡ false
    → IsDistinct xs
    → IsDistinct (xs ++ v ∷ [])
unfolding contains
append_one-IsDistinct v [] h d = (refl, tt)
append_one-IsDistinct v (x ∷ xs) h (n, d) =
    ground
      (arith, contains-append x xs (v ∷ []), append_one-IsDistinct v xs, eq_iff v x, eq_iff x v)

-- The union of two lists of names has no name twice if the first has none.
pub append_unique_strings-IsDistinct :
    (values additions : List String)
    → IsDistinct values
    → IsDistinct (append_unique_strings values additions)
unfolding append_unique_strings
append_unique_strings-IsDistinct values [] d = d
append_unique_strings-IsDistinct values (a ∷ rest) d = elim (Bool-cases (contains a values)) [
  | inl e ↦ rw e (append_unique_strings-IsDistinct values rest d)
  | inr e ↦ rw e (
      append_unique_strings-IsDistinct (values ++ a ∷ []) rest (append_one-IsDistinct a values e d))
]
