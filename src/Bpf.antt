-- ===== src/Bpf.antt =====
-- The BPF maps that kprobe shares with the kernel, as the aya crate gives them to userspace
-- (kprobe/kprobe-userspace/src/verdict_sync.rs) and to the classifier (kprobe/kprobe-ebpf/src/main.rs).
-- aya and the kernel are not part of the repository: their operations are the fields of `Aya`, and
-- `IsAya` is what their documentation says of them.
pub mod ListMap
use mathlib.Core.List.{Memᴰ}
use meshlite.Base.{
  ℕ, ◌+◌, ◌≤◌, ◌≡◌, ◌↔◌, refl, ap, Bool, true, ◌&&◌, Option, none, some, List, arith, ◌==◌,
  if◌then◌else◌,
}
use meshlite.Classifier.{PacketKey, Maps}

unfoldable pub key_eq : PacketKey → PacketKey → Bool
key_eq j k = j.src_ip == k.src_ip && j.dst_ip == k.dst_ip

pub key_eq_iff : (j k : PacketKey) → (key_eq j k ≡ true) ↔ (j ≡ k)
unfolding key_eq
key_eq_iff j k = (λ h. ground arith, λ p. ground arith)

-- `with_max_entries(4096, 0)` of VERDICT_MAP
abbrev pub max_entries : ℕ
max_entries = 4096

-- `none` in place of a new state is an error. `size` counts the entries.
pub record Aya : Type 1 where
  pub Verdicts : Type 0
  pub get : Verdicts → PacketKey → Option ℕ
  pub keys : Verdicts → List (Option PacketKey)
  pub insert : PacketKey → ℕ → Verdicts → Option Verdicts
  pub remove : PacketKey → Verdicts → Option Verdicts
  pub size : Verdicts → ℕ
  pub Flags : Type 0
  pub get_flag : Flags → ℕ → Option ℕ
  pub set_flag : ℕ → ℕ → Flags → Option Flags

-- The documented behaviour: an insertion fails only in a full map, a removal only if the key is not
-- there, the keys are all enumerated, and slot 0 of the array of one entry can be written.
pub record IsAya (aya : Aya) : Type 0 where
  pub get-insert :
      (k j : PacketKey) (v : ℕ) (m n : aya.Verdicts)
      → aya.insert k v m ≡ some n
      → aya.get n j ≡ (if key_eq k j then some v else aya.get m j)
  pub insert_full :
      (k : PacketKey) (v : ℕ) (m : aya.Verdicts)
      → aya.insert k v m ≡ none
      → max_entries ≤ aya.size m
  pub size-insert :
      (k : PacketKey) (v : ℕ) (m n : aya.Verdicts)
      → aya.insert k v m ≡ some n
      → aya.size n ≤ aya.size m + 1
  pub get-remove :
      (k j : PacketKey) (m n : aya.Verdicts)
      → aya.remove k m ≡ some n
      → aya.get n j ≡ (if key_eq k j then none else aya.get m j)
  pub remove_missing :
      (k : PacketKey) (m : aya.Verdicts) → aya.remove k m ≡ none → aya.get m k ≡ none
  pub keys_all :
      (k : PacketKey) (m : aya.Verdicts) {v : ℕ} → aya.get m k ≡ some v → Memᴰ (some k) (aya.keys m)
  pub size_empty : (m : aya.Verdicts) → ((k : PacketKey) → aya.get m k ≡ none) → aya.size m ≡ 0
  pub set_flag_zero :
      (v : ℕ) (f : aya.Flags)
      → (g : aya.Flags) × (aya.set_flag 0 v f ≡ some g) × (aya.get_flag g 0 ≡ some v)

-- What the classifier reads of the same maps.
abbrev pub kernel_view : (aya : Aya) → aya.Verdicts → aya.Flags → Maps
kernel_view aya m f = record { verdict_map = aya.get m; policy_flags = aya.get_flag f }
