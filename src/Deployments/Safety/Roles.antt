-- ===== src/Deployments/Safety/Roles.antt =====
-- The roles of the members through a create: they stay those of the ordered bindings.
use yokai.Prelude.{
  ℕ, zero, suc, String, ◌==◌, eq_iff, ◌≡◌, refl, ap, ◌∙◌, Bool-cases, inl, inr, some, List, [], ◌∷◌,
  map, drop, modify, get_or, arith,
}
use yokai.Deployments.Types.{Binding, Member, Deployment}
use yokai.Deployments.Members.{member_index_by_role, no_member}
use yokai.Deployments.Engine.Journal.{member_at, previous_at, with_previous_status}
use yokai.Deployments.Engine.Request.{binding_by_role}
use yokai.Deployments.Engine.Candidate.{planned_member}
use yokai.Deployments.Engine.Create.{Plan, Selection, planned_members, plan_deployment}
use yokai.Deployments.Env.{Env}

abbrev pub roles_of : List Member → List String
roles_of ms = map (λ m. m.role) ms

abbrev pub binding_roles : List Binding → List String
binding_roles bs = map (λ b. b.role) bs

-- The members have the roles of the ordered bindings, in their order.
abbrev pub IsPaired : Plan → Deployment → Type 0
IsPaired p d = roles_of d.members ≡ binding_roles p.ordered

-- A change of a member that keeps its role.
pub roles_of-modify :
    (ms : List Member) (i : ℕ) (f : Member → Member)
    → ((m : Member) → (f m).role ≡ m.role)
    → roles_of (modify ms i f) ≡ roles_of ms
roles_of-modify [] i f keep = refl
roles_of-modify (m ∷ ms) zero f keep = ap (λ r. r ∷ roles_of ms) (keep m)
roles_of-modify (m ∷ ms) (suc i) f keep = ap (λ rs. m.role ∷ rs) (roles_of-modify ms i f keep)

-- The roles of a deployment's planned members are those of the bindings.
roles_of-planned_members :
    (env : Env) (p : Plan) (d : Deployment) (bs : List Binding)
    → roles_of (planned_members env p d bs) ≡ binding_roles bs
unfolding planned_members planned_member
roles_of-planned_members env p d [] = refl
roles_of-planned_members env p d (b ∷ bs) =
    ap (λ rs. b.role ∷ rs) (roles_of-planned_members env p d bs)

pub plan_deployment-IsPaired :
    (env : Env) (p : Plan) (sel : Selection) (id hash : String) (now : ℕ)
    → IsPaired p (plan_deployment env p sel id hash now)
unfolding plan_deployment
plan_deployment-IsPaired env p sel id hash now = roles_of-planned_members env p _ p.ordered

role_at : (ms : List Member) (i : ℕ) → (get_or ms i no_member).role ≡ get_or (roles_of ms) i ""
role_at [] i = refl
role_at (m ∷ ms) zero = refl
role_at (m ∷ ms) (suc i) = role_at ms i

role_dropped :
    (bs : List Binding) (i : ℕ) (b : Binding) (rest : List Binding)
    → drop i bs ≡ b ∷ rest
    → (get_or (binding_roles bs) i "" ≡ b.role) × (drop (suc i) bs ≡ rest)
role_dropped [] zero b rest h = absurd (ground (arith, h))
role_dropped [] (suc i) b rest h = absurd (ground (arith, h))
role_dropped (c ∷ bs) zero b rest h = ground (arith, h)
role_dropped (c ∷ bs) (suc i) b rest h = role_dropped bs i b rest h

-- The member at the index of a binding has its role.
pub paired-role :
    (p : Plan) (d : Deployment) (i : ℕ) (b : Binding) (rest : List Binding)
    → IsPaired p d
    → drop i p.ordered ≡ b ∷ rest
    → ((member_at d i).role ≡ b.role) × (drop (suc i) p.ordered ≡ rest)
paired-role p d i b rest paired h =
    let (role, left) = role_dropped p.ordered i b rest h in
    (role_at d.members i ∙ ap (λ rs. get_or rs i "") paired ∙ role, left)

found_binding :
    (ms : List Member) (bs : List Binding) (role : String) (i : ℕ)
    → member_index_by_role ms role ≡ some i
    → roles_of ms ≡ binding_roles bs
    → ((get_or ms i no_member).role ≡ role) × ((binding_by_role bs role).role ≡ role)
unfolding member_index_by_role binding_by_role
found_binding [] bs role i h same = absurd (ground (arith, h))
found_binding (m ∷ ms) [] role i h same = absurd (ground (arith, same))
found_binding (m ∷ ms) (b ∷ bs) role i h same =
    let k : (j : ℕ)
        → member_index_by_role ms role ≡ some j
        → ((get_or ms j no_member).role ≡ role) × ((binding_by_role bs role).role ≡ role) =
      λ j e. found_binding ms bs role j e (ground (arith, same)) in
    let first : m.role ≡ b.role = ground (arith, same) in
    elim (Bool-cases (m.role == role)) [
      | inl e ↦ grind (arith, eq_iff m.role role, eq_iff b.role role)
      | inr e ↦ grind (arith, k, eq_iff m.role role, eq_iff b.role role)
    ]

-- The member that a role finds, and the binding that it finds, have that role.
pub paired-found :
    (p : Plan) (d : Deployment) (role : String) (i : ℕ)
    → IsPaired p d
    → member_index_by_role d.members role ≡ some i
    → ((member_at d i).role ≡ role) × ((binding_by_role p.ordered role).role ≡ role)
paired-found p d role i paired h = found_binding d.members p.ordered role i h paired

status_kept :
    (ms : List Member) (i : ℕ) (status : String)
    → (let m = get_or (modify ms i (λ x. record x { status = status })) i no_member in
        let before = get_or ms i no_member in
        (m.role ≡ before.role)
        × (m.device_id ≡ before.device_id)
        × (m.container_id ≡ before.container_id))
status_kept [] i status = (refl, refl, refl)
status_kept (m ∷ ms) zero status = (refl, refl, refl)
status_kept (m ∷ ms) (suc i) status = status_kept ms i status

-- A previous member keeps its role, device and container when its status is set.
pub previous_at-status :
    (d : Deployment) (i : ℕ) (status : String)
    → (let m = previous_at (with_previous_status d i status) i in
        (m.role ≡ (previous_at d i).role)
        × (m.device_id ≡ (previous_at d i).device_id)
        × (m.container_id ≡ (previous_at d i).container_id))
previous_at-status d i status = status_kept d.previous_members i status
