-- ===== src/Bpf/ListMap.antt =====
-- Maps that behave as `IsAya` says: a list of entries with room for `max_entries`, and one flag. They
-- show that the hypotheses on aya can be met, and run the examples.
use mathlib.Core.List.{Memᴰ}
use meshlite.Base.{
  ℕ, ◌+◌, ◌≤◌, ◌≡◌, refl, inl, inr, ◌||◌, Option, none, some, List, [], ◌∷◌, arith, length, ltb,
  ◌==◌, is_some, if◌then◌else◌, Bool-cases,
}
use meshlite.Classifier.{PacketKey}
use meshlite.Bpf.{Aya, IsAya, key_eq, key_eq_iff, max_entries}

abbrev Table : Type 0
Table = List (PacketKey × ℕ)

abbrev find : Table → PacketKey → Option ℕ
find [] k = none
find ((j, v) ∷ m) k = if key_eq j k then some v else find m k

abbrev put : PacketKey → ℕ → Table → Table
put k v [] = (k, v) ∷ []
put k v ((j, w) ∷ m) = if key_eq j k then (j, v) ∷ m else (j, w) ∷ put k v m

abbrev without : PacketKey → Table → Table
without k [] = []
without k ((j, w) ∷ m) = let rest = without k m in if key_eq j k then rest else (j, w) ∷ rest

abbrev insert : PacketKey → ℕ → Table → Option Table
insert k v m = if is_some (find m k) || ltb (length m) max_entries then some (put k v m) else none

abbrev remove : PacketKey → Table → Option Table
remove k m = if is_some (find m k) then some (without k m) else none

abbrev keys : Table → List (Option PacketKey)
keys [] = []
keys ((k, v) ∷ m) = some k ∷ keys m

abbrev pub list_maps : Aya
list_maps = record {
  Verdicts = Table;
  get = find;
  keys = keys;
  insert = insert;
  remove = remove;
  size = length;
  Flags = ℕ;
  get_flag = λ f i. if i == 0 then some f else none;
  set_flag = λ i v f. if i == 0 then some v else none;
}

find-put :
    (k j : PacketKey) (v : ℕ) (m : Table)
    → find (put k v m) j ≡ (if key_eq k j then some v else find m j)
find-put k j v [] = refl
find-put k j v ((i, w) ∷ m) =
    ground (arith, key_eq_iff k j, key_eq_iff i k, key_eq_iff i j, find-put k j v m)

length-put : (k : PacketKey) (v : ℕ) (m : Table) → length (put k v m) ≤ length m + 1
length-put k v [] = omega arith
length-put k v ((j, w) ∷ m) = ground (arith, length-put k v m)

find-without :
    (k j : PacketKey) (m : Table) → find (without k m) j ≡ (if key_eq k j then none else find m j)
find-without k j [] = ground arith
find-without k j ((i, w) ∷ m) =
    ground (arith, key_eq_iff k j, key_eq_iff i k, key_eq_iff i j, find-without k j m)

mem-keys : (k : PacketKey) (m : Table) {v : ℕ} → find m k ≡ some v → Memᴰ (some k) (keys m)
mem-keys k [] e = cc
mem-keys k ((j, w) ∷ m) {v} e = elim (Bool-cases (key_eq j k)) [
  | inl same ↦ Memᴰ.head (ground (arith, key_eq_iff j k))
  | inr other ↦ Memᴰ.tail (mem-keys k m {v = v} (ground arith))
]

length_empty : (m : Table) → ((k : PacketKey) → find m k ≡ none) → length m ≡ 0
length_empty [] h = refl
length_empty ((k, v) ∷ m) h = ground (arith, h k, key_eq_iff k k)

pub list_maps-IsAya : IsAya list_maps
list_maps-IsAya = record {
  get-insert = λ k j v m n e. ground (arith, find-put k j v m);
  insert_full = λ k v m e. ground arith;
  size-insert = λ k v m n e. ground (arith, length-put k v m);
  get-remove = λ k j m n e. ground (arith, find-without k j m);
  remove_missing = λ k m e. ground arith;
  keys_all = λ k m e. mem-keys k m e;
  size_empty = length_empty;
  set_flag_zero = λ v f. (v, refl, refl);
}
