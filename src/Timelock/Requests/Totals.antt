-- ===== src/Timelock/Requests/Totals.antt =====
-- The totals of a request against plain sums: saturation never hides an excess.
use hos_treasury.Common.{
  ℕ, ◌+◌, ◌*◌, ◌^◌, ◌≤◌, ◌<◌, ◌≡◌, ◌↔◌, ◌⊎◌, arith, Option, none, some, List, [], ◌∷◌, foldl,
  length, sum_by, min, ap, ◌∙◌, u64_max, u128_max, le→leb, Bool-cases, leb, leb→le, inl, inr,
}
use hos_treasury.Timelock.Types.{FunctionCall, ProposalApproval, Request, Sdk}
use hos_treasury.Timelock.Requests.{
  total_deposit, total_gas, actions_gas, add_approval_gas, max_execution_gas,
}

-- The deposits of a batch, together.
abbrev pub deposits : List FunctionCall → ℕ
deposits = sum_by (λ action. action.deposit)

-- The gas that a batch attaches, together.
abbrev pub attached_gas : List FunctionCall → ℕ
attached_gas = sum_by (λ action. action.gas)

-- What the vote after a proposal costs: a receipt, an action, the callback and the vote itself.
abbrev pub approval_gas : Option ProposalApproval → ℕ
approval_gas none = 0
approval_gas (some approval) =
    217 * 10 ^ 9 + 980 * 10 ^ 9 + 10 * 10 ^ 12 + approval.act_proposal_gas

-- What a request costs its executor, in unbounded numbers.
abbrev pub exact_gas : Request → ℕ
exact_gas r =
    attached_gas r.actions
    + 980 * 10 ^ 9 * length r.actions
    + 217 * 10 ^ 9
    + 5 * 10 ^ 12
    + approval_gas r.approve

module _ ⦃sdk : Sdk⦄ where
  open sdk use {units}

  foldl-deposit :
      (acc : ℕ) (actions : List FunctionCall)
      → foldl
          (λ acc action. units.token_saturating_add acc action.deposit)
          (min acc u128_max)
          actions
        ≡ min (acc + deposits actions) u128_max
  foldl-deposit acc [] = omega arith
  foldl-deposit acc (a ∷ actions) =
      ap (λ n. foldl (λ acc action. units.token_saturating_add acc action.deposit) n actions)
        (units.token_saturating_add_lem (min acc u128_max) a.deposit ∙ step)
      ∙ foldl-deposit (acc + a.deposit) actions
      ∙ regroup
    where
      step : min (min acc u128_max + a.deposit) u128_max ≡ min (acc + a.deposit) u128_max
      step = omega arith

      regroup :
          min (acc + a.deposit + deposits actions) u128_max
          ≡ min (acc + deposits (a ∷ actions)) u128_max
      regroup = omega arith

  -- The total deposit is the sum of the deposits, or the largest `u128` where that is less.
  pub total_deposit_lem : (r : Request) → total_deposit r ≡ min (deposits r.actions) u128_max
  unfolding total_deposit
  total_deposit_lem r = omega (arith, foldl-deposit 0 r.actions)

  foldl-gas :
      (acc : ℕ) (actions : List FunctionCall)
      → foldl (λ acc action. units.gas_saturating_add acc action.gas) (min acc u64_max) actions
        ≡ min (acc + attached_gas actions) u64_max
  foldl-gas acc [] = omega arith
  foldl-gas acc (a ∷ actions) =
      ap (λ n. foldl (λ acc action. units.gas_saturating_add acc action.gas) n actions)
        (units.gas_saturating_add_lem (min acc u64_max) a.gas ∙ step)
      ∙ foldl-gas (acc + a.gas) actions
      ∙ regroup
    where
      step : min (min acc u64_max + a.gas) u64_max ≡ min (acc + a.gas) u64_max
      step = omega arith

      regroup :
          min (acc + a.gas + attached_gas actions) u64_max
          ≡ min (acc + attached_gas (a ∷ actions)) u64_max
      regroup = omega arith

  actions_gas_lem :
      (r : Request) (n : ℕ)
      → actions_gas r n
        ≡ min (attached_gas r.actions + 980 * 10 ^ 9 * n + 217 * 10 ^ 9 + 5 * 10 ^ 12) u64_max
  unfolding actions_gas
  actions_gas_lem r n =
      rw
        (
          actions_gas,
          units.from_ggas_lem 980 (omega arith),
          units.from_ggas_lem 217 (omega arith),
          units.from_tgas_lem 5 (omega arith),
        )
        (omega (
          arith,
          units.gas_saturating_add_lem,
          units.gas_saturating_mul_lem (980 * 10 ^ 9) n,
          foldl-gas 0 r.actions,
        ))

  approval_gas_lem :
      (gas : ℕ) (approve : Option ProposalApproval)
      → add_approval_gas (min gas u64_max) approve ≡ min (gas + approval_gas approve) u64_max
  unfolding add_approval_gas
  approval_gas_lem gas none = omega arith
  approval_gas_lem gas (some approval) =
      rw
        (
          add_approval_gas,
          units.from_ggas_lem 980 (omega arith),
          units.from_ggas_lem 217 (omega arith),
          units.from_tgas_lem 10 (omega arith),
        )
        (omega (arith, units.gas_saturating_add_lem))

  -- The total gas is the exact cost, or the largest `u64` where that is less.
  pub total_gas_lem :
      (r : Request) → length r.actions ≤ u64_max → total_gas r ≡ some (min (exact_gas r) u64_max)
  unfolding total_gas
  total_gas_lem r few =
      rw (total_gas, le→leb (length r.actions) u64_max few)
        (ap some (
          ap (λ g. add_approval_gas g r.approve) (actions_gas_lem r (length r.actions))
          ∙ approval_gas_lem _ r.approve))

  total_gas_many : (r : Request) → u64_max < length r.actions → total_gas r ≡ none
  unfolding total_gas
  total_gas_many r many = ground arith

  -- The gas check of a request passes exactly when its exact cost, in unbounded numbers, is at most
  -- 280 TGas: no saturation and no count of actions lets a dearer request through.
  pub gas_check_iff :
      (r : Request)
      → ((g : ℕ) × (total_gas r ≡ some g) × (g ≤ max_execution_gas)) ↔ (exact_gas r ≤ 280 * 10 ^ 12)
  gas_check_iff r = (
    λ (g, e, small). ground (arith, units.from_tgas_lem 280, total_gas_lem r, total_gas_many r),
    λ cheap. (
      min (exact_gas r) u64_max,
      total_gas_lem r (omega arith),
      rw (units.from_tgas_lem 280 (omega arith)) (omega arith),
    ),
  )

  -- The same by cases on the total.
  pub gas_cases :
      (r : Request)
      → ((total_gas r ≡ none) × (¬ (exact_gas r ≤ 280 * 10 ^ 12)))
        ⊎ ((g : ℕ) × (total_gas r ≡ some g)
            × ((g ≤ max_execution_gas) ↔ (exact_gas r ≤ 280 * 10 ^ 12)))
  gas_cases r = elim (Bool-cases (leb (length r.actions) u64_max)) [
    | inl few ↦ inr (
      min (exact_gas r) u64_max,
      total_gas_lem r (leb→le _ _ few),
      rw (units.from_tgas_lem 280 (omega arith)) (λ h. omega arith, λ h. omega arith),
    )
    | inr many ↦
        let more : u64_max < length r.actions = ground arith in
        inl (total_gas_many r more, omega arith)
  ]
