-- ===== src/FieldNode/FieldRepository/Calls.antt =====
-- What a lookup of a field returns.
use ds_practice_court.Base.{ℕ, ◌≡◌, Option, ok, arith, find?, bind_ok, lift_result}
use ds_practice_court.Shared.Models.{Field}
use ds_practice_court.Services.{Services, IsLawful}
use ds_practice_court.Services.Facts.{one_or_none-find?}
use ds_practice_court.FieldNode.FieldRepository.{is_field, get_by_id}

module _ (S : Services) (L : IsLawful S) where
  open L use {tables, fields_lawful}

  pub get_field-tables : (i : ℕ) (w : S.World) → tables (get_by_id S i w).1 ≡ tables w
  unfolding get_by_id
  get_field-tables i w = ground (arith, fields_lawful.select-tables (is_field i) w)

  pub field_found :
      (i : ℕ) (w : S.World) {o : Option Field}
      → (get_by_id S i w).0 ≡ ok o
      → o ≡ find? (is_field i) (tables w).fields
  unfolding get_by_id
  field_found i w h =
      let (rs, e, step) =
        bind_ok (S.fields.select (is_field i)) (λ rs. lift_result (S.scalar_one_or_none rs)) w h in
      one_or_none-find? S L (is_field i) (tables w).fields rs
        (fields_lawful.select-ok (is_field i) w e) (rw step at h)
