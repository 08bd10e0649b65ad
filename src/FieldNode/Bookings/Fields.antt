-- ===== src/FieldNode/Bookings/Fields.antt =====
-- A field that `/fields` has created, as the endpoints show it afterwards.
use ds_practice_court.Base.{
  ◌≡◌, ◌⊎◌, inl, inr, true, [], ◌∷◌, ◌++◌, ok, err, fault, database, arith, where_rows,
  where_rows_all, Result-cases, refl, ◌∙◌,
}
use ds_practice_court.Shared.Schemas.{FieldBase}
use ds_practice_court.Shared.Models.{Field}
use ds_practice_court.Services.{Services, IsLawful, put_fields}
use ds_practice_court.Services.Facts.{inserted}
use ds_practice_court.FieldNode.FieldRepository
use ds_practice_court.FieldNode.FieldRepository.{is_field}
use ds_practice_court.FieldNode.Bookings.{create_field, get_field, list_fields}

-- The field is the one that the client has asked for, as the columns store it, and active.
abbrev pub AsAsked : Services → FieldBase → Field → Type 0
AsAsked S body f =
    (f.name ≡ body.name)
    × (f.location ≡ body.location)
    × (f.sport_type ≡ S.sport_column body.sport_type)
    × (f.price_per_hour ≡ S.price_column body.price_per_hour)
    × (f.is_active ≡ true)

module _ (S : Services) (L : IsLawful S) (body : FieldBase) (w : S.World) {q : Field} where
  open L use {tables, broker, fields_lawful}

  created :
      (create_field S body w).0 ≡ ok q
      → let v = tables (create_field S body w).1 in
        AsAsked S body q
        × (where_rows (is_field q.id) v.fields ≡ q ∷ [])
        × (v.fields ≡ (tables w).fields ++ q ∷ [])
  unfolding create_field FieldRepository.create
  created h =
      let (i, now, made, one, behind) =
        inserted S.fields (λ r. r.id) tables broker (λ t. t.fields) put_fields fields_lawful
          (λ rs x. refl)
          (λ i now. record {
            id = i;
            name = body.name;
            location = body.location;
            sport_type = S.sport_column body.sport_type;
            price_per_hour = S.price_column body.price_per_hour;
            is_active = true;
            created_at = now;
          })
          (λ i now. refl) w h in
      (rw made (refl, refl, refl, refl, refl), one, behind)

  -- If `create_field` returns a field, it is active and has the name and the location that were asked
  -- for, and the sport and the price as their columns store what was asked for. In the state that it
  -- leaves, `get_field` finds it under its id, and `list_fields` shows it after the fields that were
  -- there before, unless the database raises.
  pub create_field-get_field :
      (create_field S body w).0 ≡ ok q
      → let v = (create_field S body w).1 in
        AsAsked S body q
        × (((get_field S q.id v).0 ≡ ok q) ⊎ ((get_field S q.id v).0 ≡ err (fault database)))
        × (((list_fields S v).0 ≡ ok ((tables w).fields ++ q ∷ []))
            ⊎ ((list_fields S v).0 ≡ err (fault database)))
  unfolding get_field list_fields FieldRepository.get_by_id FieldRepository.get_all
  create_field-get_field h =
      let (asked, one, behind) = created h in
      let v = (create_field S body w).1 in
      (
        asked,
        elim (Result-cases (S.fields.select (is_field q.id) v).0) [
          | inl (rs, e) ↦
              let found : rs ≡ q ∷ [] = fields_lawful.select-ok (is_field q.id) v e ∙ one in
              inl (ground (arith, e, found, L.one_or_none-one q))
          | inr (x, e) ↦ inr (ground (arith, e, fields_lawful.select-err (is_field q.id) v e))
        ],
        elim (Result-cases (S.fields.select (λ _. true) v).0) [
          | inl (rs, e) ↦
              let all = fields_lawful.select-ok (λ _. true) v e in
              inl (ground (arith, e, all, behind, where_rows_all ((tables w).fields ++ q ∷ [])))
          | inr (x, e) ↦ inr (ground (arith, e, fields_lawful.select-err (λ _. true) v e))
        ],
      )
