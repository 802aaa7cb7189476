-- ===== src/Near/Store.antt =====
-- The SDK's persistent collections, parameters: `near_sdk::store::IterableMap` and `IterableSet`.
-- The laws are what their documentation says; the order of an iteration is left open.
use hos_treasury.Common.{
  ℕ, Bool, Option, none, some, List, [], ◌∷◌, ◌≡◌, ◌≢◌, ◌↔◌, ◌⊎◌, is_some, length, true,
}
use mathlib.Core.List.{Memᴰ, Permᴰ}

pub record IterableMap (K V : Type 0) : Type 1 where
  pub Map : Type 0
  pub new : Map
  pub get : Map → K → Option V
  pub contains_key : Map → K → Bool
  pub insert : Map → K → V → Map
  -- the map without the key, and the value that it had
  pub remove : Map → K → Map × Option V
  pub len : Map → ℕ
  pub iter : Map → List (K × V)
  pub get-new : (k : K) → get new k ≡ none
  pub get-insert_self : (m : Map) (k : K) (v : V) → get (insert m k v) k ≡ some v
  pub get-insert_ne : (m : Map) (k j : K) (v : V) → j ≢ k → get (insert m k v) j ≡ get m j
  pub remove-get : (m : Map) (k : K) → (remove m k).1 ≡ get m k
  pub get-remove_self : (m : Map) (k : K) → get (remove m k).0 k ≡ none
  pub get-remove_ne : (m : Map) (k j : K) → j ≢ k → get (remove m k).0 j ≡ get m j
  pub contains_key-get : (m : Map) (k : K) → contains_key m k ≡ is_some (get m k)
  pub len-iter : (m : Map) → len m ≡ length (iter m)
  pub iter-new : iter new ≡ []
  pub mem-iter : (m : Map) (k : K) (v : V) → Memᴰ (k, v) (iter m) ↔ (get m k ≡ some v)
  pub iter-insert :
      (m : Map) (k : K) (v : V) → Permᴰ (iter (insert m k v)) ((k, v) ∷ iter (remove m k).0)
  pub iter-remove_some :
      (m : Map) (k : K) (v : V) → get m k ≡ some v → Permᴰ (iter m) ((k, v) ∷ iter (remove m k).0)
  pub iter-remove_none : (m : Map) (k : K) → get m k ≡ none → Permᴰ (iter (remove m k).0) (iter m)

pub record IterableSet (K : Type 0) : Type 1 where
  pub Set : Type 0
  pub new : Set
  pub contains : Set → K → Bool
  pub insert : Set → K → Set
  pub clear : Set → Set
  pub iter : Set → List K
  pub contains-new : (k : K) → ¬ (contains new k ≡ true)
  pub contains-insert :
      (s : Set) (k j : K) → (contains (insert s k) j ≡ true) ↔ ((j ≡ k) ⊎ (contains s j ≡ true))
  pub contains-clear : (s : Set) (k : K) → ¬ (contains (clear s) k ≡ true)
  pub mem-iter : (s : Set) (k : K) → Memᴰ k (iter s) ↔ (contains s k ≡ true)
