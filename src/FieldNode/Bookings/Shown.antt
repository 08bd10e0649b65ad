-- ===== src/FieldNode/Bookings/Shown.antt =====
-- Every field that is stored can be shown: its row passes the validators of FieldResponse.
use ds_practice_court.Base.{
  arith, ◌≡◌, refl, ◌∙◌, ap, ◌⊎◌, inl, inr, true, some, List, All, All-append, Exn, ok, err,
  Result-cases, where_rows_all, ℕ, continue_with, fault, database,
}
use ds_practice_court.Shared.Schemas.{FieldBase, field_base_accepts}
use ds_practice_court.Shared.Models.{Field}
use ds_practice_court.Shared.Responses.{FieldResponse, field_response}
use ds_practice_court.Services.{Services, IsLawful}
use ds_practice_court.FieldNode.FieldRepository
use ds_practice_court.FieldNode.Bookings.Fields.{AsAsked, create_field-get_field}
use ds_practice_court.FieldNode.Bookings.{create_field, list_fields}

-- The endpoints can answer with the field.
abbrev pub CanShow : (ℕ → ℕ) → Field → Type 0
CanShow float f = (r : FieldResponse) × (field_response float f ≡ some r)

abbrev pub IsShown : (ℕ → ℕ) → List Field → Type 0
IsShown float = All (CanShow float)

module _ (S : Services) (L : IsLawful S) (float : ℕ → ℕ) where
  open L use {tables, fields_lawful}

  -- What the columns store of a body, as it is shown.
  abbrev pub as_stored : FieldBase → FieldBase
  as_stored body = record body {
    sport_type = S.sport_column body.sport_type;
    price_per_hour = float (S.price_column body.price_per_hour);
  }

  as_stored_accepted :
      (body : FieldBase)
      → field_base_accepts body ≡ true
      → field_base_accepts (as_stored body) ≡ true
  unfolding field_base_accepts
  as_stored_accepted body h = ground (arith, L.sport_column-fits body.sport_type)

  -- The answer to a new field: what the client sent, as the columns store it, under an id, and
  -- active.
  abbrev pub AnswersWith : FieldBase → Field → Type 0
  AnswersWith body q =
      field_response float q
      ≡ some
          (record { base = as_stored body; id = q.id; is_active = true; created_at = q.created_at })

  AsAsked-AnswersWith :
      (body : FieldBase) (q : Field)
      → field_base_accepts body ≡ true
      → AsAsked S body q
      → AnswersWith body q
  unfolding field_response
  AsAsked-AnswersWith body q accepts (name, location, sport, price, active) =
      rw (name, location, sport, price, active, as_stored_accepted body accepts) refl

  inserted-IsShown :
      (body : FieldBase) (w : S.World)
      → field_base_accepts body ≡ true
      → IsShown float (tables w).fields
      → IsShown float (tables (create_field S body w).1).fields
  unfolding create_field FieldRepository.create field_response
  inserted-IsShown body w accepts shown =
      let row : ℕ → ℕ → Field = λ i now. record {
        id = i;
        name = body.name;
        location = body.location;
        sport_type = S.sport_column body.sport_type;
        price_per_hour = S.price_column body.price_per_hour;
        is_active = true;
        created_at = now;
      } in
      elim (Result-cases (S.fields.add_commit row w).0) [
        | inr (e, raised) ↦ rw (continue_with, raised, (fields_lawful.add-err row w raised).1) shown
        | inl (f, added) ↦
            let (i, now, made, _, behind) = fields_lawful.add-ok row w added in
            let v = (S.fields.add_commit row w).1 in
            let can : CanShow float f = rw made (
              record { base = as_stored body; id = i; is_active = true; created_at = now },
              rw (as_stored_accepted body accepts) refl,
            ) in
            rw (continue_with, added, fields_lawful.refresh-tables f v, behind)
              (All-append (CanShow float) (tables w).fields shown can)
      ]

  -- A body that its validators accept keeps every stored field one that can be shown, also if the
  -- request fails after its row is stored; and unless it fails, its answer shows the field as the
  -- client sent it, with the sport and the price as their columns store them. If the fields can then be listed, each of them can be shown.
  pub create_field-IsShown :
      (body : FieldBase) (w : S.World)
      → field_base_accepts body ≡ true
      → IsShown float (tables w).fields
      → let r = create_field S body w in
        IsShown float (tables r.1).fields
        × (((e : Exn) × (r.0 ≡ err e)) ⊎ ((q : Field) × (r.0 ≡ ok q) × AnswersWith body q))
        × (((list_fields S r.1).0 ≡ err (fault database))
            ⊎ ((fs : List Field) × ((list_fields S r.1).0 ≡ ok fs) × IsShown float fs))
  unfolding list_fields FieldRepository.get_all
  create_field-IsShown body w accepts shown =
      let r = create_field S body w in
      let after = inserted-IsShown body w accepts shown in
      (
        after,
        elim (Result-cases r.0) [
          | inr (e, raised) ↦ inl (e, raised)
          | inl (q, done) ↦ inr (
            q,
            done,
            AsAsked-AnswersWith body q accepts (create_field-get_field S L body w done).0,
          )
        ],
        elim (Result-cases (S.fields.select (λ _. true) r.1).0) [
          | inr (e, raised) ↦
              inl (raised ∙ ap err (fields_lawful.select-err (λ _. true) r.1 raised))
          | inl (fs, done) ↦
              let all : fs ≡ (tables r.1).fields =
                fields_lawful.select-ok (λ _. true) r.1 done ∙ where_rows_all (tables r.1).fields in
              inr (fs, done, rw all after)
        ],
      )
