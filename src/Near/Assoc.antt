-- ===== src/Near/Assoc.antt =====
-- The SDK's collections as lists of entries, to show that the interfaces of Near/Store can be met.
use mathlib.Core.List.Permᴰ
use mathlib.Core.List.{Memᴰ, Permᴰ}
use mathlib.Core.Logic.{ite, if_pos, if_neg}
use hos_treasury.Common.{
  Bool, Option, none, some, List, [], ◌∷◌, ◌≡◌, ◌≢◌, ◌↔◌, refl, is_some, length, arith, ap, sym,
  true, false, ◌⊎◌, inl, inr,
}
use hos_treasury.Near.Store.{IterableMap, IterableSet}

module _ {K V : Type 0} (dec : Discrete K) where
  abbrev pub find : List (K × V) → K → Option V
  find [] k = none
  find ((j, v) ∷ m) k = ite (dec k j) (some v) (find m k)

  abbrev pub discard : List (K × V) → K → List (K × V)
  discard [] k = []
  discard ((j, v) ∷ m) k = ite (dec k j) m ((j, v) ∷ discard m k)

  -- No key is listed twice.
  abbrev pub IsKeyed : List (K × V) → Type 0
  IsKeyed [] = Unit
  IsKeyed ((k, v) ∷ m) = (find m k ≡ none) × IsKeyed m

  pub find-discard_ne : (m : List (K × V)) (k j : K) → j ≢ k → find (discard m k) j ≡ find m j
  find-discard_ne [] k j h = refl
  find-discard_ne (e ∷ m) k j h = ground (arith, find-discard_ne m k j h)

  pub find-discard_self : (m : List (K × V)) (k : K) → IsKeyed m → find (discard m k) k ≡ none
  find-discard_self [] k h = refl
  find-discard_self (e ∷ m) k h = ground (arith, find-discard_self m k h.1)

  pub discard-IsKeyed : (m : List (K × V)) (k : K) → IsKeyed m → IsKeyed (discard m k)
  discard-IsKeyed [] k h = tt
  discard-IsKeyed (e ∷ m) k h = ground (arith, discard-IsKeyed m k h.1, find-discard_ne m k e.0)

  pub discard-perm_some :
      (m : List (K × V)) (k : K) (v : V) → find m k ≡ some v → Permᴰ m ((k, v) ∷ discard m k)
  discard-perm_some [] k v h = absurd (cc)
  discard-perm_some ((j, u) ∷ m) k v h = elim (dec k j) [
    | yes p ↦ rw (if_pos _ p) (Permᴰ.cons (same p (rw (if_pos _ p) at h)) (Permᴰ.refl m))
    | no p ↦ rw (if_neg _ p) (
        Permᴰ.trans (Permᴰ.cons refl (discard-perm_some m k v (rw (if_neg _ p) at h)))
          (Permᴰ.swap refl refl))
  ]
    where
      same : k ≡ j → some u ≡ some v → ◌≡◌ {A = K × V} (j, u) (k, v)
      same p q = cc

  pub discard_absent : (m : List (K × V)) (k : K) → find m k ≡ none → discard m k ≡ m
  discard_absent [] k h = refl
  discard_absent (e ∷ m) k h = ground (arith, discard_absent m k)

  pub mem_of_find : (m : List (K × V)) (k : K) (v : V) → find m k ≡ some v → Memᴰ (k, v) m
  mem_of_find [] k v h = absurd (cc)
  mem_of_find ((j, u) ∷ m) k v h = elim (dec k j) [
    | yes p ↦ Memᴰ.head (same p (rw (if_pos _ p) at h))
    | no p ↦ Memᴰ.tail (mem_of_find m k v (rw (if_neg _ p) at h))
  ]
    where
      same : k ≡ j → some u ≡ some v → ◌≡◌ {A = K × V} (k, v) (j, u)
      same p q = cc

  pub find_of_mem :
      (m : List (K × V)) (k : K) (v : V) → IsKeyed m → Memᴰ (k, v) m → find m k ≡ some v
  find_of_mem [] k v h p = elim p [ ]
  find_of_mem ((j, u) ∷ m) k v h (Memᴰ.head e) =
      rw (if_pos _ (ap (λ x. x.0) e)) (ap some (sym (ap (λ x. x.1) e)))
  find_of_mem ((j, u) ∷ m) k v h (Memᴰ.tail p) =
      let found = find_of_mem m k v h.1 p in
      elim (dec k j) [ yes q ↦ absurd (clash q found) | no q ↦ rw (if_neg _ q) found ]
    where
      clash : k ≡ j → find m k ≡ some v → ⊥
      clash q found = ground (arith, h.0)

abbrev pub Store : (K V : Type 0) → Discrete K → Type 0
Store K V dec = (m : List (K × V)) × IsKeyed dec m

module _ {K V : Type 0} (dec : Discrete K) where
  abbrev pub store_insert : Store K V dec → K → V → Store K V dec
  store_insert s k v =
      ((k, v) ∷ discard dec s.0 k, (find-discard_self dec s.0 k s.1, discard-IsKeyed dec s.0 k s.1))

  abbrev pub store_remove : Store K V dec → K → Store K V dec × Option V
  store_remove s k = ((discard dec s.0 k, discard-IsKeyed dec s.0 k s.1), find dec s.0 k)

  pub find-insert_ne :
      (s : Store K V dec) (k j : K) (v : V)
      → j ≢ k
      → find dec (store_insert s k v).0 j ≡ find dec s.0 j
  find-insert_ne s k j v h = ground (arith, find-discard_ne dec s.0 k j h)

  pub discard-perm_none :
      (s : Store K V dec) (k : K) → find dec s.0 k ≡ none → Permᴰ (discard dec s.0 k) s.0
  discard-perm_none s k h = rw (discard_absent dec s.0 k h) (Permᴰ.refl s.0)

  abbrev pub assoc_map : IterableMap K V
  assoc_map = record {
    Map = Store K V dec;
    new = ([], tt);
    get = λ s. find dec s.0;
    contains_key = λ s k. is_some (find dec s.0 k);
    insert = store_insert;
    remove = store_remove;
    len = λ s. length s.0;
    iter = λ s. s.0;
    get-new = λ k. refl;
    get-insert_self = λ s k v. if_pos (dec k k) refl _ _;
    get-insert_ne = find-insert_ne;
    remove-get = λ s k. refl;
    get-remove_self = λ s k. find-discard_self dec s.0 k s.1;
    get-remove_ne = λ s k j. find-discard_ne dec s.0 k j;
    contains_key-get = λ s k. refl;
    len-iter = λ s. refl;
    iter-new = refl;
    mem-iter = λ s k v. (find_of_mem dec s.0 k v s.1, mem_of_find dec s.0 k v);
    iter-insert = λ s k v. Permᴰ.refl _;
    iter-remove_some = λ s. discard-perm_some dec s.0;
    iter-remove_none = discard-perm_none;
  }

module _ {K : Type 0} (dec : Discrete K) where
  abbrev pub has : List K → K → Bool
  has [] k = false
  has (j ∷ s) k = ite (dec k j) true (has s k)

  pub has-cons : (s : List K) (k j : K) → (has (k ∷ s) j ≡ true) ↔ ((j ≡ k) ⊎ (has s j ≡ true))
  has-cons s k j = elim (dec j k) [
    | yes p ↦ (λ h. inl p, λ h. here p)
    | no p ↦ (λ h. inr (rw (if_neg _ p) at h), λ h. other p h)
  ]
    where
      here : j ≡ k → has (k ∷ s) j ≡ true
      here p = rw (if_pos _ p)

      other : ¬ (j ≡ k) → ((j ≡ k) ⊎ (has s j ≡ true)) → has (k ∷ s) j ≡ true
      other p (inl e) = absurd (p e)
      other p (inr h) = rw (if_neg _ p) h

  pub has_of_mem : (s : List K) (k : K) → Memᴰ k s → has s k ≡ true
  has_of_mem [] k h = elim h [ ]
  has_of_mem (j ∷ s) k (Memᴰ.head e) = (has-cons s j k).1 (inl e)
  has_of_mem (j ∷ s) k (Memᴰ.tail h) = (has-cons s j k).1 (inr (has_of_mem s k h))

  pub mem_of_has : (s : List K) (k : K) → has s k ≡ true → Memᴰ k s
  mem_of_has [] k h = absurd (cc)
  mem_of_has (j ∷ s) k h = go ((has-cons s j k).0 h) (mem_of_has s k)
    where
      go : ((k ≡ j) ⊎ (has s k ≡ true)) → (has s k ≡ true → Memᴰ k s) → Memᴰ k (j ∷ s)
      go (inl e) _ = Memᴰ.head e
      go (inr h) rest = Memᴰ.tail (rest h)

  pub false-ne-true : ¬ (◌≡◌ {A = Bool} false true)
  false-ne-true h = cc

  abbrev pub list_set : IterableSet K
  list_set = record {
    Set = List K;
    new = [];
    contains = has;
    insert = λ s k. k ∷ s;
    clear = λ s. [];
    iter = λ s. s;
    contains-new = λ k. false-ne-true;
    contains-insert = has-cons;
    contains-clear = λ s k. false-ne-true;
    mem-iter = λ s k. (has_of_mem s k, mem_of_has s k);
  }
