-- ===== src/Common/Lists.antt =====
-- Lists over native numbers, under the library's names, and sums.
use Prim.Native.Nat.{ℕ, zero, suc, ◌+◌, ◌-◌, ◌≤◌, min}
use mathlib.Core.Path.{◌≡◌, refl, ap, ap₂, sym, subst, ◌∙◌}
use mathlib.Core.List.{List, [], ◌∷◌, ◌++◌, map}
use mathlib.Core.List.{Permᴰ, Memᴰ}
use native.Mathlib.Nat.{zero-add, suc-add}
use native.Mathlib.Omega.{arith}

module _ {ℓ} {A : Type ℓ} where
  abbrev pub length : List A → ℕ
  length [] = 0
  length (x ∷ xs) = suc (length xs)

  abbrev pub take : ℕ → List A → List A
  take zero xs = []
  take (suc n) [] = []
  take (suc n) (x ∷ xs) = x ∷ take n xs

  abbrev pub drop : ℕ → List A → List A
  drop zero xs = xs
  drop (suc n) [] = []
  drop (suc n) (x ∷ xs) = drop n xs

  pub take-append-drop : (n : ℕ) (xs : List A) → take n xs ++ drop n xs ≡ xs
  take-append-drop zero xs = refl
  take-append-drop (suc n) [] = refl
  take-append-drop (suc n) (x ∷ xs) = ap (◌∷◌ x) (take-append-drop n xs)

  pub length-take : (n : ℕ) (xs : List A) → length (take n xs) ≡ min n (length xs)
  length-take zero xs = omega arith
  length-take (suc n) [] = omega arith
  length-take (suc n) (x ∷ xs) = omega (arith, length-take n xs)

  pub length-drop : (n : ℕ) (xs : List A) → length (drop n xs) ≡ length xs - n
  length-drop zero xs = omega arith
  length-drop (suc n) [] = omega arith
  length-drop (suc n) (x ∷ xs) = omega (arith, length-drop n xs)

  -- The sum of a measure over a list.
  abbrev pub sum_by : (A → ℕ) → List A → ℕ
  sum_by f [] = 0
  sum_by f (x ∷ xs) = f x + sum_by f xs

-- Every item has the property.
abbrev pub All {ℓ κ} : {A : Type ℓ} → (A → Type κ) → List A → Type κ
All P [] = Unit
All P (x ∷ xs) = P x × All P xs

module _ {ℓ} {A : Type ℓ} (f : A → ℕ) where
  -- A sum does not depend on the order.
  pub sum_by-perm : {xs ys : List A} → Permᴰ xs ys → sum_by f xs ≡ sum_by f ys
  sum_by-perm Permᴰ.nil = refl
  sum_by-perm (Permᴰ.cons e p) = ap₂ ◌+◌ (ap f e) (sum_by-perm p)
  sum_by-perm (Permᴰ.swap e d) = omega (arith, ap f e, ap f d)
  sum_by-perm (Permᴰ.trans p q) = sum_by-perm p ∙ sum_by-perm q

  pub sum_by-append : (xs ys : List A) → sum_by f (xs ++ ys) ≡ sum_by f xs + sum_by f ys
  sum_by-append [] ys = omega arith
  sum_by-append (x ∷ xs) ys = omega (arith, sum_by-append xs ys)

module _ {ℓ} {A : Type ℓ} where
  -- What a piece of a list has, the list has.
  pub take-mem : (n : ℕ) (xs : List A) (x : A) → Memᴰ x (take n xs) → Memᴰ x xs
  take-mem zero xs x h = elim h [ ]
  take-mem (suc n) [] x h = elim h [ ]
  take-mem (suc n) (y ∷ xs) x (Memᴰ.head e) = Memᴰ.head e
  take-mem (suc n) (y ∷ xs) x (Memᴰ.tail h) = Memᴰ.tail (take-mem n xs x h)

  pub drop-mem : (n : ℕ) (xs : List A) (x : A) → Memᴰ x (drop n xs) → Memᴰ x xs
  drop-mem zero xs x h = h
  drop-mem (suc n) [] x h = elim h [ ]
  drop-mem (suc n) (y ∷ xs) x h = Memᴰ.tail (drop-mem n xs x h)

  take-nil : (n : ℕ) → take {A = A} n [] ≡ []
  take-nil zero = refl
  take-nil (suc n) = refl

  drop-nil : (n : ℕ) → drop {A = A} n [] ≡ []
  drop-nil zero = refl
  drop-nil (suc n) = refl

  pub length-map {κ} : {B : Type κ} (f : A → B) (xs : List A) → length (map f xs) ≡ length xs
  length-map f [] = refl
  length-map f (x ∷ xs) = ap suc (length-map f xs)

  -- Two pages, one after the other, are one longer page.
  pub take-join : (n m : ℕ) (xs : List A) → take n xs ++ take m (drop n xs) ≡ take (n + m) xs
  take-join zero m xs = rw zero-add
  take-join (suc n) m [] = rw (suc-add, take-nil m)
  take-join (suc n) m (x ∷ xs) = rw suc-add (ap (◌∷◌ x) (take-join n m xs))

  pub drop-drop : (n m : ℕ) (xs : List A) → drop m (drop n xs) ≡ drop (n + m) xs
  drop-drop zero m xs = rw zero-add
  drop-drop (suc n) m [] = rw (suc-add, drop-nil m)
  drop-drop (suc n) m (x ∷ xs) = rw suc-add (drop-drop n m xs)

  pub take_all : (n : ℕ) (xs : List A) → length xs ≤ n → take n xs ≡ xs
  take_all zero [] h = refl
  take_all zero (x ∷ xs) h = absurd (omega arith)
  take_all (suc n) [] h = refl
  take_all (suc n) (x ∷ xs) h = ap (◌∷◌ x) (take_all n xs (omega arith))

module _ {ℓ κ} {A : Type ℓ} (P : A → Type κ) where
  pub All-append : (xs ys : List A) → All P xs → All P ys → All P (xs ++ ys)
  All-append [] ys h k = k
  All-append (x ∷ xs) ys (first, rest) k = (first, All-append xs ys rest k)

  -- One item is taken out of the middle.
  pub All-middle :
      (xs : List A) (y : A) (ys : List A) → All P (xs ++ y ∷ ys) → P y × All P (xs ++ ys)
  All-middle [] y ys h = h
  All-middle (x ∷ xs) y ys (first, rest) =
      let (mid, others) = All-middle xs y ys rest in (mid, (first, others))

  pub All-mem : (xs : List A) (x : A) → All P xs → Memᴰ x xs → P x
  All-mem [] x h m = elim m [ ]
  All-mem (y ∷ xs) x (first, rest) (Memᴰ.head e) = subst P (sym e) first
  All-mem (y ∷ xs) x (first, rest) (Memᴰ.tail m) = All-mem xs x rest m

pub All-imp {ℓ κ μ} :
    {A : Type ℓ} (P : A → Type κ) (Q : A → Type μ)
    → ((x : A) → P x → Q x)
    → (xs : List A) → All P xs
    → All Q xs
All-imp P Q f [] h = tt
All-imp P Q f (x ∷ xs) (first, rest) = (f x first, All-imp P Q f xs rest)
