-- ===== src/Near/Lookup.antt =====
-- Reading a map with numbers as keys after a change of it.
use hos_treasury.Common.{ℕ, ◌≡◌, ◌≢◌, ap, sym, ◌∙◌, Option, none, some, ◌⊎◌, inl, inr}
use native.Mathlib.Decide.{ℕ_discrete}
use hos_treasury.Near.Store.{IterableMap}

module _ {V : Type 0} (Q : IterableMap ℕ V) (m : Q.Map) (k j : ℕ) where
  -- What is found after an insertion is the new value, or was there before.
  pub found_after_insert :
      (v x : V)
      → Q.get (Q.insert m k v) j ≡ some x
      → ((j ≡ k) × (some v ≡ some x)) ⊎ ((j ≢ k) × (Q.get m j ≡ some x))
  found_after_insert v x h = elim (ℕ_discrete j k) [
    | yes p ↦ inl (p, sym (Q.get-insert_self m k v) ∙ ap (Q.get (Q.insert m k v)) (sym p) ∙ h)
    | no p ↦ inr (p, sym (Q.get-insert_ne m k j v p) ∙ h)
  ]

  -- What is found after a removal has another key and was there before.
  pub found_after_remove :
      (x : V) → Q.get (Q.remove m k).0 j ≡ some x → (j ≢ k) × (Q.get m j ≡ some x)
  found_after_remove x h = elim (ℕ_discrete j k) [
    | yes p ↦ absurd (clash (sym (Q.get-remove_self m k) ∙ ap (Q.get (Q.remove m k).0) (sym p) ∙ h))
    | no p ↦ (p, sym (Q.get-remove_ne m k j p) ∙ h)
  ]
    where
      clash : ¬ (◌≡◌ {A = Option V} none (some x))
      clash e = cc

  -- What is missing stays missing after a removal.
  pub absent_after_remove : Q.get m j ≡ none → Q.get (Q.remove m k).0 j ≡ none
  absent_after_remove h = elim (ℕ_discrete j k) [
    | yes p ↦ ap (Q.get (Q.remove m k).0) p ∙ Q.get-remove_self m k
    | no p ↦ Q.get-remove_ne m k j p ∙ h
  ]
