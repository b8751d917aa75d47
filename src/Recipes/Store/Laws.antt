-- ===== src/Recipes/Store/Laws.antt =====
-- What a put does to the recipes.
use yokai.Prelude.{
  String, ◌==◌, eq_iff, eq_refl, ◌≡◌, refl, ap, sym, ◌∙◌, Bool, true, false, not, ◌&&◌, ◌||◌,
  Bool-cases, inl, inr, Option, none, some, is_some, List, [], ◌∷◌, if◌then◌else◌, arith,
}
use yokai.Deployments.Errors.{Err}
use yokai.Recipes.Types.{Recipe}
use yokai.Recipes.Store.{get, upsert, put, put_error}

get-upsert : (rs : List Recipe) (r : Recipe) → get (upsert rs r) r.id ≡ some r
unfolding get upsert
get-upsert [] r = ground (arith, eq_refl r.id)
get-upsert (s ∷ rs) r = ground (arith, eq_refl r.id, get-upsert rs r)

get-upsert_other :
    (rs : List Recipe) (r : Recipe) (id : String)
    → (r.id == id) ≡ false
    → get (upsert rs r) id ≡ get rs id
unfolding get upsert
get-upsert_other [] r id h = ground (arith, h)
get-upsert_other (s ∷ rs) r id h = elim (Bool-cases (s.id == r.id)) [
  | inl e ↦
      let other : (s.id == id) ≡ false = ap (λ n. n == id) ((eq_iff s.id r.id).0 e) ∙ h in
      rw e (rw other (rw h refl))
  | inr e ↦ rw e (ap (λ o. if◌then◌else◌ (s.id == id) (some s) o) (get-upsert_other rs r id h))
]

promoted_get :
    (doc : List Recipe) (r : Recipe) (id : String)
    → get (upsert doc r) id ≡ (if r.id == id then some r else get doc id)
promoted_get doc r id = elim (Bool-cases (r.id == id)) [
  | inl e ↦ rw e (ap (get (upsert doc r)) (sym ((eq_iff r.id id).0 e)) ∙ get-upsert doc r)
  | inr e ↦ rw e (get-upsert_other doc r id e)
]

-- After a put that promoted the document, error or not, the recipe is read under its id; under
-- another id, or where nothing was promoted, what is read is as before; the put returns an error
-- exactly if the write had one or promoted nothing.
pub put-outcome :
    (promoted : Bool) (error : Option Err) (doc : List Recipe) (r : Recipe) (id : String)
    → (get (put (promoted, error) doc r).0 id
        ≡ (if promoted && r.id == id then some r else get doc id))
      × (is_some (put (promoted, error) doc r).1 ≡ (is_some error || not promoted))
unfolding put
put-outcome true error doc r id = (promoted_get doc r id, promoted_error error)
  where
    promoted_error : (e : Option Err) → is_some (put_error true e) ≡ (is_some e || false)
    promoted_error none = refl
    promoted_error (some e) = refl
put-outcome false none doc r id = (refl, refl)
put-outcome false (some e) doc r id = (refl, refl)
