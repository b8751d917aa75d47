-- ===== src/Deployments/Members/Order.antt =====
-- The order in which a group is launched and taken down.
use yokai.Prelude.{
  ℕ, suc, String, ◌==◌, eq_iff, ◌≡◌, ◌≢◌, refl, Option, none, some, List, [], ◌∷◌, All, take, arith,
  get_elem?, Bool-cases, inl, inr,
}
use yokai.Deployments.Types.{Member}
use yokai.Deployments.Members.{member_index_by_role}

-- What a search for a role finds: the first member of that role, or that there is none.
abbrev pub IsFound : List Member → String → Option ℕ → Type 0
IsFound ms role none = All (λ m. m.role ≢ role) ms
IsFound ms role (some i) =
    (m : Member) × (get_elem? ms i ≡ some m)
    × (m.role ≡ role)
    × All (λ x. x.role ≢ role) (take i ms)

later-IsFound :
    (m : Member) (ms : List Member) (role : String) (o : Option ℕ)
    → m.role ≢ role
    → IsFound ms role o
    → IsFound (m ∷ ms) role (elim o [ none ↦ none | some i ↦ some (suc i) ])
later-IsFound m ms role none other h = (other, h)
later-IsFound m ms role (some i) other (x, at, same, before) = (x, at, same, (other, before))

-- The index that a search for a role returns is that of the first member of the role; it returns
-- none exactly where no member has the role.
pub member_index_by_role-IsFound :
    (ms : List Member) (role : String) → IsFound ms role (member_index_by_role ms role)
unfolding member_index_by_role
member_index_by_role-IsFound [] role = tt
member_index_by_role-IsFound (m ∷ ms) role = elim (Bool-cases (m.role == role)) [
  | inl e ↦ rw e (m, refl, (eq_iff m.role role).0 e, tt)
  | inr e ↦ rw e (
      later-IsFound m ms role _ (λ same. ground (arith, e, same, eq_iff m.role role))
        (member_index_by_role-IsFound ms role))
]
