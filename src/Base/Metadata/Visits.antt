-- ===== src/Base/Metadata/Visits.antt =====
-- What a visitor is called for.
use esp_iot_framework.Prelude.{◌≡◌, refl, sym, ap, ◌∙◌, List, [], ◌∷◌, ◌++◌}
use esp_iot_framework.Base.Metadata.{
  PropertyMeta, Member, member, array, sub_type, Members, end, next, visit, visit_all,
}

-- The properties of a declaration, from left to right.
unfoldable mutual
  pub properties : Member → List PropertyMeta
  properties (member meta) = meta ∷ []
  properties (array elements) = all_properties elements
  properties (sub_type members) = all_properties members

  pub all_properties : Members → List PropertyMeta
  all_properties end = []
  all_properties (next m ms) = properties m ++ all_properties ms

-- The calls of a visitor, one after the other.
abbrev in_turn {ℓ} : {S : Type ℓ} → (PropertyMeta → S → S) → List PropertyMeta → S → S
in_turn fn [] s = s
in_turn fn (p ∷ ps) s = in_turn fn ps (fn p s)

in_turn-append {ℓ} :
    {S : Type ℓ} (fn : PropertyMeta → S → S) (ps qs : List PropertyMeta) (s : S)
    → in_turn fn (ps ++ qs) s ≡ in_turn fn qs (in_turn fn ps s)
in_turn-append fn [] qs s = refl
in_turn-append fn (p ∷ ps) qs s = in_turn-append fn ps qs (fn p s)

module _ {S : Type 0} (fn : PropertyMeta → S → S) where
  mutual
    unfolding visit properties

    visit_lem : (m : Member) (s : S) → visit fn m s ≡ in_turn fn (properties m) s
    visit_lem (member meta) s = refl
    visit_lem (array elements) s = visit_all_lem elements s
    visit_lem (sub_type members) s = visit_all_lem members s

    visit_all_lem : (ms : Members) (s : S) → visit_all fn ms s ≡ in_turn fn (all_properties ms) s
    visit_all_lem end s = refl
    visit_all_lem (next m ms) s =
        visit_all_lem ms (visit fn m s)
        ∙ ap (in_turn fn (all_properties ms)) (visit_lem m s)
        ∙ sym (in_turn-append fn (properties m) (all_properties ms) s)

-- The visitor of a declaration, at any depth of nested structs and arrays, is called once for each
-- property that is declared, in the order of the declaration, and for nothing else.
visit-in_turn :
    {S : Type 0} (fn : PropertyMeta → S → S) (m : Member) (s : S)
    → visit fn m s ≡ in_turn fn (properties m) s
visit-in_turn fn m s = visit_lem fn m s
