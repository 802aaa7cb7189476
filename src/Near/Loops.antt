-- ===== src/Near/Loops.antt =====
-- A `for` loop over a list ends exactly when each round does.
use hos_treasury.Common.{All, ◌≡◌, ◌↔◌, refl, subst, sym, ◌∙◌, List, [], ◌∷◌}
use hos_treasury.Near.Call.{World, Outcome, done, panic, Action, for_each}

abbrev pub Ends : {S C : Type 0} → Outcome (Unit {0} × World S C) → World S C → Type 0
Ends o w = o ≡ done (tt, w)

step_of_done :
    {S C : Type 0} (o : Outcome (Unit {0} × World S C)) (next : Action S C (Unit {0}))
    (w' : World S C)
    → Ends (elim o [ done r ↦ next r.1 | panic e ↦ panic e ]) w'
    → (w₁ : World S C) × Ends o w₁ × Ends (next w₁) w'
step_of_done (done r) next w' h = (r.1, refl, h)
step_of_done (panic e) next w' h = absurd (cc)

done_of_step :
    {S C : Type 0} (o : Outcome (Unit {0} × World S C)) (next : Action S C (Unit {0}))
    (w₁ w' : World S C)
    → Ends o w₁
    → Ends (next w₁) w'
    → Ends (elim o [ done r ↦ next r.1 | panic e ↦ panic e ]) w'
done_of_step (done r) next w₁ w' h k = cc
done_of_step (panic e) next w₁ w' h k = absurd (cc)

module _ {S C A : Type 0} where
  module _ (body : A → Action S C (Unit {0})) (x : A) (xs : List A) (w w' : World S C) where
    pub for_each-cons :
        Ends (for_each body (x ∷ xs) w) w'
        ↔ ((w₁ : World S C) × Ends (body x w) w₁ × Ends (for_each body xs w₁) w')
    unfolding for_each
    for_each-cons = (
      step_of_done (body x w) (for_each body xs) w',
      λ (w₁, first, rest). done_of_step (body x w) (for_each body xs) w₁ w' first rest,
    )

  pub for_each-nil :
      (body : A → Action S C (Unit {0})) (w w' : World S C)
      → Ends (for_each body [] w) w' ↔ (w' ≡ w)
  unfolding for_each
  for_each-nil body w w' = (λ h. cc, λ h. cc)

-- A loop whose round `x` ends in a state exactly when `Holds` is true of the state and `x`, and then
-- takes the state to `next` and writes no log and no promise.
module _ {S A : Type 0} (Holds : S → A → Type 0) (next : S → A → S) where
  -- Every round meets its condition in the state that it finds.
  abbrev pub AllHold : S → List A → Type 0
  AllHold s [] = Unit
  AllHold s (x ∷ xs) = Holds s x × AllHold (next s x) xs

module _ {S A : Type 0} (next : S → A → S) where
  abbrev pub run_all : S → List A → S
  run_all s [] = s
  run_all s (x ∷ xs) = run_all (next s x) xs

-- What every round keeps, of items with the property `Q`, is kept by the loop.
pub run_all_inv :
    {S A : Type 0} (Holds : S → A → Type 0) (next : S → A → S) (Q : A → Type 0) (P : S → Type 0)
    → ((s : S) (x : A) → Holds s x → Q x → P s → P (next s x))
    → (xs : List A) (s : S) → AllHold Holds next s xs
    → All Q xs
    → P s
    → P (run_all next s xs)
run_all_inv Holds next Q P keeps [] s hold q h = h
run_all_inv Holds next Q P keeps (x ∷ xs) s hold q h =
    run_all_inv Holds next Q P keeps xs (next s x) hold.1 q.1 (keeps s x hold.0 q.0 h)

pub All-any : {A : Type 0} (xs : List A) → All (λ x. Unit {0}) xs
All-any [] = tt
All-any (x ∷ xs) = (tt, All-any xs)

-- What no round changes is unchanged by the loop.
pub run_all_keeps :
    {S A B : Type 0} (f : S → B) (next : S → A → S)
    → ((s : S) (x : A) → f (next s x) ≡ f s)
    → (xs : List A) (s : S) → f (run_all next s xs) ≡ f s
run_all_keeps f next keeps [] s = refl
run_all_keeps f next keeps (x ∷ xs) s = run_all_keeps f next keeps xs (next s x) ∙ keeps s x

module _ {S C A : Type 0} (Holds : S → A → Type 0) (next : S → A → S)
    (body : A → Action S C (Unit {0}))
    (round : (x : A) (w w' : World S C)
      → (body x w ≡ done (tt, w'))
        ↔ (Holds w.state x × (w' ≡ record w { state = next w.state x }))) where
  there :
      (x : A) (xs : List A) (w w₁ w' : World S C)
      → Holds w.state x × (w₁ ≡ record w { state = next w.state x })
      → AllHold Holds next w₁.state xs × (w' ≡ record w₁ { state = run_all next w₁.state xs })
      → AllHold Holds next w.state (x ∷ xs)
        × (w' ≡ record w { state = run_all next w.state (x ∷ xs) })
  there x xs w w₁ w' (holds, e₁) =
      subst
        (λ v.
          AllHold Holds next v.state xs × (w' ≡ record v { state = run_all next v.state xs })
          → AllHold Holds next w.state (x ∷ xs)
            × (w' ≡ record w { state = run_all next w.state (x ∷ xs) }))
        (sym e₁) (λ (all, e). ((holds, all), e))

  pub for_each_iff :
      (xs : List A) (w w' : World S C)
      → (for_each body xs w ≡ done (tt, w'))
        ↔ (AllHold Holds next w.state xs × (w' ≡ record w { state = run_all next w.state xs }))
  for_each_iff [] w w' =
      (λ h. (tt, (for_each-nil body w w').0 h), λ (_, e). (for_each-nil body w w').1 e)
  for_each_iff (x ∷ xs) w w' = (
    λ h.
        let (w₁, first, rest) = (for_each-cons body x xs w w').0 h in
        there x xs w w₁ w' ((round x w w₁).0 first) ((for_each_iff xs w₁ w').0 rest),
    λ (all, e).
        let w₁ = record w { state = next w.state x } in
        (for_each-cons body x xs w w').1
          (w₁, (round x w w₁).1 (all.0, refl), (for_each_iff xs w₁ w').1 (all.1, e)),
  )
