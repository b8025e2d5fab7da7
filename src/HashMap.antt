-- ===== src/HashMap.antt =====
-- `HashMap<String, V>` of the standard library, as the list of its entries, and the order in which
-- it iterates. The position of an entry in the list carries no meaning: the program's iterations go
-- through `IsIteration`, which allows every order.
use mathlib.Core.List.{Memᴰ, Permᴰ}
use meshlite.Base.{
  ◌≡◌, refl, inl, inr, Option, none, some, List, [], ◌∷◌, arith, Text, str_eq, str_eq_iff,
  if◌then◌else◌, Bool-cases, All, subst, some-injective,
}

abbrev pub Entries {ℓ} : Type ℓ → Type ℓ
Entries V = List (Text × V)

module _ {ℓ} {V : Type ℓ} where
  -- `get(k)`
  unfoldable pub get : Text → Entries V → Option V
  get k [] = none
  get k ((j, v) ∷ m) = if str_eq j k then some v else get k m

  -- `insert(k, v)`: replaces the value of a key that is there
  unfoldable pub insert : Text → V → Entries V → Entries V
  insert k v [] = (k, v) ∷ []
  insert k v ((j, w) ∷ m) = if str_eq j k then (j, v) ∷ m else (j, w) ∷ insert k v m

  -- `remove(k)`
  unfoldable pub remove : Text → Entries V → Entries V
  remove k [] = []
  remove k ((j, w) ∷ m) = let rest = remove k m in if str_eq j k then rest else (j, w) ∷ rest

  pub get-insert :
      (k j : Text) (v : V) (m : Entries V)
      → get j (insert k v m) ≡ (if str_eq k j then some v else get j m)
  unfolding get insert
  get-insert k j v [] = refl
  get-insert k j v ((i, w) ∷ m) =
      ground (arith, str_eq_iff k j, str_eq_iff i k, str_eq_iff i j, get-insert k j v m)

  pub get-remove :
      (k j : Text) (m : Entries V) → get j (remove k m) ≡ (if str_eq k j then none else get j m)
  unfolding get remove
  get-remove k j [] = ground arith
  get-remove k j ((i, w) ∷ m) =
      ground (arith, str_eq_iff k j, str_eq_iff i k, str_eq_iff i j, get-remove k j m)

  -- A key stands in one entry at most.
  abbrev pub IsUnique : Entries V → Type ℓ
  IsUnique [] = Unit
  IsUnique ((k, v) ∷ m) = (get k m ≡ none) × IsUnique m

  pub insert-IsUnique : (k : Text) (v : V) (m : Entries V) → IsUnique m → IsUnique (insert k v m)
  unfolding get insert
  insert-IsUnique k v [] h = (refl, tt)
  insert-IsUnique k v ((j, w) ∷ m) h = elim (Bool-cases (str_eq j k)) [
    | inl same ↦ rw same h
    | inr other ↦ rw other (
      ground (arith, get-insert k j v m, str_eq_iff j k, str_eq_iff k j),
      insert-IsUnique k v m h.1,
    )
  ]

  pub remove-IsUnique : (k : Text) (m : Entries V) → IsUnique m → IsUnique (remove k m)
  unfolding get remove
  remove-IsUnique k [] h = tt
  remove-IsUnique k ((j, w) ∷ m) h = elim (Bool-cases (str_eq j k)) [
    | inl same ↦ rw same (remove-IsUnique k m h.1)
    | inr other ↦ rw other (ground (arith, get-remove k j m), remove-IsUnique k m h.1)
  ]

  pub mem_of_get : (k : Text) (m : Entries V) {v : V} → get k m ≡ some v → Memᴰ (k, v) m
  unfolding get
  mem_of_get k [] e = cc
  mem_of_get k ((j, w) ∷ m) {v} e = elim (Bool-cases (str_eq j k)) [
    | inl same ↦ Memᴰ.head (ground (arith, str_eq_iff j k))
    | inr other ↦ Memᴰ.tail (mem_of_get k m (ground arith))
  ]

  pub get_of_mem :
      (k : Text) (m : Entries V) {v : V} → IsUnique m → Memᴰ (k, v) m → get k m ≡ some v
  unfolding get
  get_of_mem k [] u m = elim m [ ]
  get_of_mem k ((j, w) ∷ m) u (Memᴰ.head e) = ground (arith, str_eq_iff j k)
  get_of_mem k ((j, w) ∷ m) u (Memᴰ.tail t) = ground (arith, str_eq_iff j k, get_of_mem k m u.1 t)

-- A property of every value.
module _ {ℓ κ} {V : Type ℓ} (P : V → Type κ) where
  pub All-insert :
      (k : Text) (v : V) (m : Entries V)
      → P v
      → All (λ entry. P entry.1) m
      → All (λ entry. P entry.1) (insert k v m)
  unfolding insert
  All-insert k v [] p h = (p, tt)
  All-insert k v ((j, w) ∷ m) p h = elim (Bool-cases (str_eq j k)) [
    | inl same ↦ rw same (p, h.1)
    | inr other ↦ rw other (h.0, All-insert k v m p h.1)
  ]

  pub All-remove :
      (k : Text) (m : Entries V)
      → All (λ entry. P entry.1) m
      → All (λ entry. P entry.1) (remove k m)
  unfolding remove
  All-remove k [] h = tt
  All-remove k ((j, w) ∷ m) h = elim (Bool-cases (str_eq j k)) [
    | inl same ↦ rw same (All-remove k m h.1)
    | inr other ↦ rw other (h.0, All-remove k m h.1)
  ]

  pub All-get :
      (k : Text) (m : Entries V) {v : V} → All (λ entry. P entry.1) m → get k m ≡ some v → P v
  unfolding get
  All-get k [] h e = cc
  All-get k ((j, w) ∷ m) {v} h e = elim (Bool-cases (str_eq j k)) [
    | inl same ↦ let here : w ≡ v = some-injective w v (rw same at e) in subst P here h.0
    | inr other ↦ All-get k m h.1 (rw other at e)
  ]

-- `iter` visits each entry once, in an order of its own.
abbrev pub IsIteration {ℓ} : {V : Type ℓ} → (Entries V → Entries V) → Type ℓ
IsIteration {V = V} iter = (m : Entries V) → Permᴰ (iter m) m
