-- ===== src/Deployment/Histories.antt =====
-- Each contract of a deployment has a history of its own, so that all its theorems hold there.
use mathlib.Core.List.{Memᴰ}
use hos_treasury.Common.{ℕ, ◌≡◌, refl, String, Option, some, List}
use hos_treasury.Near.{Context, Promise}
use hos_treasury.Timelock
use hos_treasury.Timelock.Types.{FunctionCall}
use hos_treasury.Spending
use hos_treasury.Spending.Calls.{Call}
use hos_treasury.Deployment.{
  Decoder, call_of, Vault, System, acted, Acts, Arrives, over, view, act, lock_call, arrival, gone,
  vault_call, vault_callback, Reach, start, next,
}

module _ ⦃lock_sdk : Timelock.Types.Sdk⦄ ⦃vault_sdk : Spending.Types.Sdk⦄ where
  module _ (lock_id vault_id vault_admin_id : String) where
    -- The spending account comes to this from its constructor.
    abbrev pub VaultReach : Vault → Type 0
    VaultReach v = Spending.Treasury.Reach vault_id vault_admin_id lock_id lock_id v.treasury

    module _ (decoder : Decoder) where
      pub acted-VaultReach :
          (v : Vault) (ctx : Context) (c : Call) (p : Option (Promise Spending.Types.Callback))
          (w : Spending.Whitelist.Rounds.W)
          → Acts decoder lock_id vault_id v ctx c p w
          → VaultReach v
          → VaultReach (acted v ctx c p w.state)
      acted-VaultReach v ctx c p w a r =
          Spending.Treasury.next r (Spending.Treasury.call ctx c p w a.here a.in_range a.ran)

      -- What each act of a receipt keeps, the receipt keeps.
      pub arrives_keeps :
          (P : Vault → Type 0) {actions : List FunctionCall} {v u : Vault}
          → ((action : FunctionCall) (v : Vault) (ctx : Context) (c : Call)
                (p : Option (Promise Spending.Types.Callback)) (w : Spending.Whitelist.Rounds.W)
              → Memᴰ action actions
              → call_of decoder action ≡ some c
              → ctx.predecessor_account_id ≡ lock_id
              → Acts decoder lock_id vault_id v ctx c p w
              → P v
              → P (acted v ctx c p w.state))
          → Arrives decoder lock_id vault_id actions v u
          → P v
          → P u
      arrives_keeps P f over h = h
      arrives_keeps P f (view action e m rest) h =
          arrives_keeps P (λ a v ctx c p w m. f a v ctx c p w (Memᴰ.tail m)) rest h
      arrives_keeps P f (act {v} action ctx c p w e by_lock a rest) h =
          arrives_keeps P (λ a v ctx c p w m. f a v ctx c p w (Memᴰ.tail m)) rest
            (f action v ctx c p w (Memᴰ.head refl) e by_lock a h)

      module _ {dao_id lock_admin_id : String} {guardians : List String} {delay_ns : ℕ} where
        pub Reach-timeline :
            {s : System}
            → Reach decoder lock_id vault_id dao_id lock_admin_id guardians delay_ns vault_admin_id
                s
            → Timelock.Queue.Reach s.timeline
        Reach-timeline (start self h) =
            Timelock.Queue.start dao_id lock_admin_id guardians delay_ns self h
        Reach-timeline (next r (lock_call ctx c reply w itself small h)) =
            Timelock.Queue.next (Reach-timeline r) (Timelock.Queue.call ctx c reply w small h)
        Reach-timeline (next r (arrival before after b v e here arrives)) = Reach-timeline r
        Reach-timeline (next r (gone before after b e)) = Reach-timeline r
        Reach-timeline (next r (vault_call ctx c p w other a)) = Reach-timeline r
        Reach-timeline (next r (vault_callback before after cb result w flying h)) =
            Reach-timeline r

        pub Reach-treasury :
            {s : System}
            → Reach decoder lock_id vault_id dao_id lock_admin_id guardians delay_ns vault_admin_id
                s
            → VaultReach s.vault
        Reach-treasury (start self h) = Spending.Treasury.start
        Reach-treasury (next r (lock_call ctx c reply w itself small h)) = Reach-treasury r
        Reach-treasury (next r (arrival before after b v e here arrives)) =
            arrives_keeps VaultReach
              (λ action v ctx c p w m decoded by_lock a. acted-VaultReach v ctx c p w a) arrives
              (Reach-treasury r)
        Reach-treasury (next r (gone before after b e)) = Reach-treasury r
        Reach-treasury (next {s} r (vault_call ctx c p w other a)) =
            acted-VaultReach s.vault ctx c p w a (Reach-treasury r)
        Reach-treasury (next r (vault_callback before after cb result w flying h)) =
            Spending.Treasury.next (Reach-treasury r)
              (Spending.Treasury.callback before after cb result w flying h)
