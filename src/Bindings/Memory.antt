-- ===== src/Bindings/Memory.antt =====
-- The memory that the C and the Java hosts share with the core: receivers and byte buffers behind raw
-- pointers. Address 0 is null; address `n + 1` is slot `n` of its kind, which is empty once it was freed. An
-- allocation takes a fresh slot. The use of an address that holds nothing is undefined: the calls return
-- `none`.
use air_ferry.Prelude.{
  ℕ, zero, suc, ◌≡◌, refl, ap, false, ◌==◌, List, [], ◌∷◌, ◌++◌, length, get_elem?, set, Option,
  none, some, if◌then◌else◌, arith,
}
use air_ferry.Engine.Receiver.{ReceiverSession}

abbrev pub null : ℕ
null = 0

module _ {ℓ} {A : Type ℓ} where
  unfoldable pub load : List (Option A) → ℕ → Option A
  load slots zero = none
  load slots (suc n) = elim (get_elem? slots n) [ none ↦ none | some content ↦ content ]

  unfoldable pub store : List (Option A) → ℕ → Option A → List (Option A)
  store slots zero content = slots
  store slots (suc n) content = set slots n content

  unfoldable pub allocate : List (Option A) → A → List (Option A) × ℕ
  allocate slots a = (slots ++ (some a ∷ []), suc (length slots))

  -- How many slots are taken.
  unfoldable pub taken : List (Option A) → ℕ
  taken [] = 0
  taken (none ∷ slots) = taken slots
  taken (some a ∷ slots) = suc (taken slots)

  pub load-allocate :
      (slots : List (Option A)) (a : A) → load (allocate slots a).0 (allocate slots a).1 ≡ some a
  unfolding load allocate
  load-allocate [] a = refl
  load-allocate (x ∷ slots) a = load-allocate slots a

  -- What is there has a proper address.
  pub load-ne-null :
      (slots : List (Option A)) (p : ℕ) {a : A} → load slots p ≡ some a → (p == null) ≡ false
  unfolding load
  load-ne-null slots zero h = cc
  load-ne-null slots (suc n) h = ground arith

  -- A fresh address is not null.
  pub allocate-ne-null : (slots : List (Option A)) (a : A) → ((allocate slots a).1 == null) ≡ false
  unfolding allocate
  allocate-ne-null slots a = ground arith

  pub load-store-none : (slots : List (Option A)) (p : ℕ) → load (store slots p none) p ≡ none
  unfolding load store
  load-store-none slots zero = refl
  load-store-none [] (suc n) = refl
  load-store-none (x ∷ slots) (suc zero) = refl
  load-store-none (x ∷ slots) (suc (suc n)) = load-store-none slots (suc n)

  -- What was there stays where it was.
  pub load-allocate_old :
      (slots : List (Option A)) (a : A) (p : ℕ) {b : A}
      → load slots p ≡ some b
      → load (allocate slots a).0 p ≡ some b
  unfolding load allocate
  load-allocate_old slots a zero h = cc
  load-allocate_old [] a (suc n) h = cc
  load-allocate_old (x ∷ slots) a (suc zero) h = h
  load-allocate_old (x ∷ slots) a (suc (suc n)) h = load-allocate_old slots a (suc n) h

  pub taken-allocate :
      (slots : List (Option A)) (a : A) → taken (allocate slots a).0 ≡ suc (taken slots)
  unfolding taken allocate
  taken-allocate [] a = refl
  taken-allocate (none ∷ slots) a = taken-allocate slots a
  taken-allocate (some b ∷ slots) a = ap suc (taken-allocate slots a)

  -- Freeing what was allocated last gives back every address as it was.
  pub load-store-allocate :
      (slots : List (Option A)) (a : A) (p : ℕ)
      → load (store (allocate slots a).0 (allocate slots a).1 none) p ≡ load slots p
  unfolding load store allocate
  load-store-allocate slots a zero = refl
  load-store-allocate [] a (suc zero) = refl
  load-store-allocate [] a (suc (suc n)) = refl
  load-store-allocate (x ∷ slots) a (suc zero) = refl
  load-store-allocate (x ∷ slots) a (suc (suc n)) = load-store-allocate slots a (suc n)

  pub taken-store_free :
      (slots : List (Option A)) (p : ℕ) {a : A}
      → load slots p ≡ some a
      → suc (taken (store slots p none)) ≡ taken slots
  unfolding load store taken
  taken-store_free slots zero h = cc
  taken-store_free [] (suc n) h = cc
  taken-store_free (none ∷ slots) (suc zero) h = cc
  taken-store_free (some b ∷ slots) (suc zero) h = refl
  taken-store_free (none ∷ slots) (suc (suc n)) h = taken-store_free slots (suc n) h
  taken-store_free (some b ∷ slots) (suc (suc n)) h = ap suc (taken-store_free slots (suc n) h)

pub record Host (D : Type 0) : Type 0 where
  pub sessions : List (Option (ReceiverSession D))
  pub buffers : List (Option (List ℕ))

module _ {D : Type 0} where
  -- A call that reads the receiver behind a handle; a null handle gets the default.
  unfoldable pub query {ℓ} :
      {A : Type ℓ} → A → (ReceiverSession D → A) → Host D → (handle : ℕ) → Option A
  query otherwise read h handle =
      if handle == null
      then some otherwise
      else elim (load h.sessions handle) [ none ↦ none | some s ↦ some (read s) ]
