-- ===== src/Program/Store/Unique.antt =====
-- At most one account at a key: an address holds one account.
use plott.Common.{
  ℕ, ◌+◌, ◌≤◌, ◌≡◌, refl, ap, Bool, true, false, none, some, List, [], ◌∷◌, arith, Bool-cases, inl,
  inr,
}
use plott.Program.Store.{
  find, remove, store, total, find-at, total-remove, total-store, total-store_new,
}

abbrev pub one_if : Bool → ℕ
one_if true = 1
one_if false = 0

module _ {A : Type 0} where
  -- How many accounts a test picks out.
  abbrev pub matches : (A → Bool) → List A → ℕ
  matches at xs = total (λ x. one_if (at x)) xs

  pub matches-none : (at : A → Bool) (xs : List A) → find at xs ≡ none → matches at xs ≡ 0
  unfolding find
  matches-none at [] h = refl
  matches-none at (x ∷ xs) h = elim (Bool-cases (at x)) [
    | inl e ↦ ground arith
    | inr e ↦ omega (arith, ap one_if e, matches-none at xs (rw e at h))
  ]

  pub find-none : (at : A → Bool) (xs : List A) → matches at xs ≡ 0 → find at xs ≡ none
  unfolding find
  find-none at [] h = refl
  find-none at (x ∷ xs) h = elim (Bool-cases (at x)) [
    | inl e ↦ ground arith
    | inr e ↦ rw e (find-none at xs (omega (arith, ap one_if e, h)))
  ]

  matches_ext :
      (at at' : A → Bool) (xs : List A) → ((x : A) → at' x ≡ at x) → matches at' xs ≡ matches at xs
  matches_ext at at' [] h = refl
  matches_ext at at' (x ∷ xs) h = omega (arith, ap one_if (h x), matches_ext at at' xs h)

  module _ (at at' : A → Bool) (xs : List A) (unique : matches at' xs ≤ 1) where
    -- A test that picks an account out of a new key is the test for that key.
    pub added_unique :
        (a : A)
        → find at xs ≡ none
        → (at' a ≡ true → (x : A) → at' x ≡ at x)
        → one_if (at' a) + matches at' xs ≤ 1
    added_unique a vacant same = elim (Bool-cases (at' a)) [
      | inl e ↦
          omega (arith, ap one_if e, matches_ext at at' xs (same e), matches-none at xs vacant)
      | inr e ↦ omega (arith, ap one_if e, unique)
    ]

    pub store_new_unique :
        (a : A)
        → find at xs ≡ none
        → (at' a ≡ true → (x : A) → at' x ≡ at x)
        → matches at' (store at a xs) ≤ 1
    store_new_unique a vacant same =
        omega
          (arith, added_unique a vacant same, total-store_new (λ x. one_if (at' x)) at a xs vacant)

    pub store_unique :
        (a b : A) → find at xs ≡ some b → at' a ≡ at' b → matches at' (store at a xs) ≤ 1
    store_unique a b found same =
        omega (arith, unique, ap one_if same, total-store (λ x. one_if (at' x)) at a xs b found)

    pub remove_unique : (b : A) → find at xs ≡ some b → matches at' (remove at xs) ≤ 1
    remove_unique b found = omega (arith, unique, total-remove (λ x. one_if (at' x)) at xs b found)

  -- An account that is closed is gone, where it was the only one at its key.
  pub find-remove :
      (at : A → Bool) (xs : List A) (a : A)
      → matches at xs ≤ 1
      → find at xs ≡ some a
      → find at (remove at xs) ≡ none
  find-remove at xs a unique found = find-none at (remove at xs) (
      omega (
        arith,
        unique,
        ap one_if (find-at at xs a found),
        total-remove (λ x. one_if (at x)) at xs a found,
      ))
