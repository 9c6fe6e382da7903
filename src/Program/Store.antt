-- ===== src/Program/Store.antt =====
-- The accounts of one kind, as a list with at most one account for a key, and what a change at a key
-- does to a sum over them.
pub mod Unique
use plott.Common.{
  ℕ, ◌+◌, ◌≤◌, ◌≡◌, refl, Bool, true, false, if◌then◌else◌, Option, none, some, List, [], ◌∷◌,
  arith, Bool-cases, inl, inr,
}

module _ {A : Type 0} where
  -- The account at a key, as the test for the key finds it.
  unfoldable pub find : (A → Bool) → List A → Option A
  find at [] = none
  find at (x ∷ xs) = if at x then some x else find at xs

  -- `close`
  unfoldable pub remove : (A → Bool) → List A → List A
  remove at [] = []
  remove at (x ∷ xs) = if at x then xs else x ∷ remove at xs

  -- The account's data after an instruction that writes it, or a new account.
  unfoldable pub store : (A → Bool) → A → List A → List A
  store at v [] = v ∷ []
  store at v (x ∷ xs) = if at x then v ∷ xs else x ∷ store at v xs

  abbrev pub total : (A → ℕ) → List A → ℕ
  total f [] = 0
  total f (x ∷ xs) = f x + total f xs

  pub find-at : (at : A → Bool) (xs : List A) (a : A) → find at xs ≡ some a → at a ≡ true
  unfolding find
  find-at at [] a h = cc
  find-at at (x ∷ xs) a h = elim (Bool-cases (at x)) [
    | inl e ↦ ground arith
    | inr e ↦ find-at at xs a (rw e at h)
  ]

  pub total-find :
      (f : A → ℕ) (at : A → Bool) (xs : List A) (a : A) → find at xs ≡ some a → f a ≤ total f xs
  unfolding find
  total-find f at [] a h = cc
  total-find f at (x ∷ xs) a h = elim (Bool-cases (at x)) [
    | inl e ↦ ground arith
    | inr e ↦ omega (arith, total-find f at xs a (rw e at h))
  ]

  pub total-remove :
      (f : A → ℕ) (at : A → Bool) (xs : List A) (a : A)
      → find at xs ≡ some a
      → total f (remove at xs) + f a ≡ total f xs
  unfolding find remove
  total-remove f at [] a h = cc
  total-remove f at (x ∷ xs) a h = elim (Bool-cases (at x)) [
    | inl e ↦ ground arith
    | inr e ↦ rw e (omega (arith, total-remove f at xs a (rw e at h)))
  ]

  pub total-store :
      (f : A → ℕ) (at : A → Bool) (v : A) (xs : List A) (a : A)
      → find at xs ≡ some a
      → total f (store at v xs) + f a ≡ total f xs + f v
  unfolding find store
  total-store f at v [] a h = cc
  total-store f at v (x ∷ xs) a h = elim (Bool-cases (at x)) [
    | inl e ↦ ground arith
    | inr e ↦ rw e (omega (arith, total-store f at v xs a (rw e at h)))
  ]

  pub total-store_new :
      (f : A → ℕ) (at : A → Bool) (v : A) (xs : List A)
      → find at xs ≡ none
      → total f (store at v xs) ≡ total f xs + f v
  unfolding find store
  total-store_new f at v [] h = omega arith
  total-store_new f at v (x ∷ xs) h = elim (Bool-cases (at x)) [
    | inl e ↦ ground arith
    | inr e ↦ rw e (omega (arith, total-store_new f at v xs (rw e at h)))
  ]

  pub find-remove_other :
      (at other : A → Bool) (xs : List A)
      → ((x : A) → at x ≡ true → other x ≡ false)
      → find at (remove other xs) ≡ find at xs
  unfolding find remove
  find-remove_other at other [] apart = refl
  find-remove_other at other (x ∷ xs) apart = elim (Bool-cases (at x)) [
    | inl e ↦ rw (e, apart x e) (rw e refl)
    | inr e ↦ elim (Bool-cases (other x)) [
      | inl h ↦ rw (e, h) refl
      | inr h ↦ rw (e, h) (rw e (find-remove_other at other xs apart))
    ]
  ]

  pub find_ext :
      (at other : A → Bool) (xs : List A) → ((x : A) → at x ≡ other x) → find at xs ≡ find other xs
  unfolding find
  find_ext at other [] same = refl
  find_ext at other (x ∷ xs) same = rw (same x, find_ext at other xs same) refl

  pub find-cons_other :
      (at : A → Bool) (x : A) (xs : List A) → at x ≡ false → find at (x ∷ xs) ≡ find at xs
  unfolding find
  find-cons_other at x xs apart = rw apart refl
