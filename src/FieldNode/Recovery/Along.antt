-- ===== src/FieldNode/Recovery/Along.antt =====
-- What one part of a recovery run leaves for the next: transactions at their end stay there.
use ds_practice_court.Base.{ℕ, ◌≡◌, ◌≢◌, sym, ap, ◌∙◌, inl, inr, some, List, All-mono}
use ds_practice_court.Shared.Schemas.{prepared, committed, TwoPcTransactionState}
use ds_practice_court.Services.{Services, IsLawful, IsUp}
use ds_practice_court.FieldNode.Coordinator.{txn_key}
use ds_practice_court.FieldNode.Coordinator.Redis.{txn_value}
use ds_practice_court.FieldNode.Recovery.Visit.{
  Known, Kept, Moves, IsUtilityConfirmed, Settles, Finished,
}

pub doc_inj :
    {is js : List ℕ} → some (txn_value prepared is) ≡ some (txn_value prepared js) → is ≡ js
doc_inj e = cc

pub same_state :
    {state : TwoPcTransactionState} {is js : List ℕ}
    → some (txn_value state is) ≡ some (txn_value prepared js)
    → state ≡ prepared
same_state e = cc

pub not_both : {is js : List ℕ} → some (txn_value committed is) ≢ some (txn_value prepared js)
not_both e = cc

module _ (S : Services) (L : IsLawful S) (U : IsUp S L) where
  open L use {tables, broker}

  -- What no step of a run undoes.
  abbrev pub Along : S.World → S.World → Type 0
  Along w v =
      Kept S L U w v × ((j : ℕ) → Moves S L U j w v) × ((j : ℕ) → Known S L U j w → Known S L U j v)

  pub same-Along : (w v : S.World) → tables v ≡ tables w → broker v ≡ broker w → Along w v
  same-Along w v t b = (
    (λ j (c, found, is_c). (c, rw t found, is_c), λ j (c, found, is_c). (c, rw t found, is_c)),
    λ j. inl (ap (λ x. x.stored (txn_key j)) b),
    λ j k. (rw b k.0, λ is p. rw t (k.1 is (ap (λ x. x.stored (txn_key j)) (sym b) ∙ p))),
  )

  Finished-Along :
      (j : ℕ) (is : List ℕ) (w v : S.World)
      → Along w v
      → Finished S L U j is w
      → Finished S L U j is v
  Finished-Along j is w v a f = (
    elim (a.1 j) [ inl same ↦ same ∙ f.0 | inr (js, p, _) ↦ absurd (not_both (sym f.0 ∙ p)) ],
    a.0.0 j f.1,
    All-mono (λ i. IsUtilityConfirmed S L U i w) (λ i. IsUtilityConfirmed S L U i v)
        (λ i c. a.0.1 i c) is f.2,
  )

  pub trans-Along : (w u v : S.World) → Along w u → Along u v → Along w v
  trans-Along w u v a b = (
    (λ j c. b.0.0 j (a.0.0 j c), λ j c. b.0.1 j (a.0.1 j c)),
    λ j. elim (a.1 j) [
      | inr (is, p, f) ↦ inr (is, p, Finished-Along j is u v b f)
      | inl same ↦ elim (b.1 j) [
        | inl same' ↦ inl (same' ∙ same)
        | inr (is, p, f) ↦ inr (is, sym same ∙ p, f)
      ]
    ],
    λ j k. b.2 j (a.2 j k),
  )

  pub Settles-later :
      (fid : ℕ) (w u v : S.World)
      → Along w u
      → Along u v
      → Settles S L U fid u v
      → Settles S L U fid w v
  Settles-later fid w u v a b s is p = elim (a.1 fid) [
    | inl same ↦ s is (same ∙ p)
    | inr (js, q, f) ↦ Finished-Along fid is u v b (rw (← doc_inj (sym q ∙ p)) f)
  ]

  pub Settles-Along :
      (fid : ℕ) (w u v : S.World) → Settles S L U fid w u → Along u v → Settles S L U fid w v
  Settles-Along fid w u v s a is p = Finished-Along fid is u v a (s is p)
