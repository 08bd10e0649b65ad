-- ===== src/FieldNode/Holds/Listing.antt =====
-- What `get_active_holds` lists, while the services are up.
use ds_practice_court.Base.{
  Result, ℕ, ◌≡◌, Bool, false, ◌==◌, ◌||◌, Option, none, some, List, [], ◌∷◌, ok, All,
  if◌then◌else◌,
}
use ds_practice_court.Base.Text.{Text, text_eq}
use ds_practice_court.Services.{Services, IsLawful, IsUp, Value, IsLiteral}
use ds_practice_court.FieldNode.Holds.{hold_key, holder}

abbrev pub hold_of : Text → List (Text × Value) → Option Value
hold_of slot [] = none
hold_of slot ((s, v) ∷ holds) = if text_eq s slot then some v else hold_of slot holds

abbrev pub has_text : Text → List Text → Bool
has_text t [] = false
has_text t (s ∷ ts) = text_eq s t || has_text t ts

abbrev pub HasNoColon : Text → Type 0
HasNoColon t = All (λ c. c == b':' ≡ false) t

-- What a hold of a slot shows, on top of what was there: a name that is not empty.
abbrev pub shown : Option Value → Option Value → Option Value
shown (some v) old = some v
shown none old = old

module _ (S : Services) (L : IsLawful S) (U : IsUp S L) (f : ℕ) (d : Text)
    (plain_date : HasNoColon d) (literal_date : IsLiteral d) where
  open L use {tables, broker}

  abbrev Shows :
      List Text → List (Text × Value) → S.World → Result (List (Text × Value)) × S.World → Type 0
  Shows keys acc w r =
      (holds : List (Text × Value)) × (r.0 ≡ ok holds)
      × (broker r.1 ≡ broker w)
      × (tables r.1 ≡ tables w)
      × ((slot : Text)
          → hold_of slot holds ≡ (
              if has_text (hold_key f d slot) keys
              then shown (holder ((broker w).stored (hold_key f d slot))) (hold_of slot acc)
              else hold_of slot acc))
