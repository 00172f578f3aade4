-- ===== src/Hash/Keys.antt =====
-- `struct i64hashtable`, `struct hashtable` and the space for keys of runtimes/0.3/common/api.c,
-- in the build without 16-byte atomics; an operation runs with no other thread between its steps.
use hivelang.Prelude.{
  ℕ, ◌+◌, ◌*◌, ◌%◌, ◌==◌, ==_iff, ◌≡◌, refl, ◌↔◌, true, ◌||◌, if◌then◌else◌, List, [], ◌∷◌, Option,
  arith,
}
use hivelang.Table.Kind.{Kind}
use hivelang.Table.Layered
use hivelang.Table.Layered.{Table, first, empty_layer}
use hivelang.Table.Layer
use hivelang.Table.Layer.{Layer}
use hivelang.Hash.Bytes.{get_byte_string_hash, get_int64_hash, same_bytes}

abbrev pub segment_capacity : ℕ
segment_capacity = 4096

-- The fields of `struct hashtable` that hand out space for keys. Segments are counted in the order
-- in which they are allocated; 0 is NULL.
pub record KeySpace : Type 0 where
  pub key_size : ℕ
  pub offset : ℕ
  pub current_segment : ℕ

-- The segment and the place in it. With no other thread the allocation flag is never found set.
unfoldable pub hashtable_alloc_key_space : KeySpace → (ℕ × ℕ) × KeySpace
hashtable_alloc_key_space s =
    let local_idx = s.offset % segment_capacity in
    let seg =
      if s.current_segment == 0 || local_idx == 0
      then s.current_segment + 1
      else s.current_segment in
    ((seg, local_idx * s.key_size), record s { offset = s.offset + 1; current_segment = seg })

-- `struct i64hashtable`: any update may claim a free cell.
abbrev pub int64_keys : Kind ℕ (Unit {0})
int64_keys = record {
  same = ◌==◌;
  hash = get_int64_hash;
  blank = 0;
  same_iff = ==_iff;
  claims = λ old_value. true;
  claims_zero = refl;
  note = λ x. x;
  renew = λ x. x;
}

pub same_bytes_iff : (a b : List ℕ) → (same_bytes a b ≡ true) ↔ (a ≡ b)
same_bytes_iff [] [] = (λ _. refl, λ _. refl)
same_bytes_iff [] (y ∷ ys) = (λ h. cc, λ h. cc)
same_bytes_iff (x ∷ xs) [] = (λ h. cc, λ h. cc)
same_bytes_iff (x ∷ xs) (y ∷ ys) =
    let (forth, back) = same_bytes_iff xs ys in ground (arith, forth, back)

-- `struct hashtable`: only an update that expects 0 may claim a free cell.
abbrev pub byte_keys : Kind (List ℕ) KeySpace
byte_keys = record {
  same = same_bytes;
  hash = get_byte_string_hash;
  blank = [];
  same_iff = same_bytes_iff;
  claims = λ old_value. old_value == 0;
  claims_zero = refl;
  note = λ s. (hashtable_alloc_key_space s).1;
  renew = λ s. record s { offset = 0; current_segment = 0 };
}

abbrev pub I64Hashtable : Type 0
I64Hashtable = Table ℕ (Unit {0})

abbrev pub Hashtable : Type 0
Hashtable = Table (List ℕ) KeySpace

-- INIT_HASHTABLE64 and INIT_HASHTABLE of `InitInternalStructures`
unfoldable pub init_hashtable64 : I64Hashtable
init_hashtable64 = first (empty_layer int64_keys 1024 tt)

unfoldable pub init_hashtable : ℕ → Hashtable
init_hashtable key_size =
    first
      (empty_layer byte_keys 1024 (record { key_size = key_size; offset = 0; current_segment = 0 }))

unfoldable pub i64_raw_update : Layer ℕ (Unit {0}) → ℕ → ℕ → ℕ → Option (ℕ × Layer ℕ (Unit {0}))
i64_raw_update = Layer.raw_update int64_keys

unfoldable pub hashtable_raw_update :
    Layer (List ℕ) KeySpace → List ℕ → ℕ → ℕ → Option (ℕ × Layer (List ℕ) KeySpace)
hashtable_raw_update = Layer.raw_update byte_keys

unfoldable pub i64_get_hashtable : I64Hashtable → ℕ → Option (ℕ × I64Hashtable)
i64_get_hashtable = Layered.get int64_keys

unfoldable pub i64_set_hashtable : I64Hashtable → ℕ → ℕ → ℕ → Option (ℕ × I64Hashtable)
i64_set_hashtable = Layered.update int64_keys

unfoldable pub get_hashtable : Hashtable → List ℕ → Option (ℕ × Hashtable)
get_hashtable = Layered.get byte_keys

unfoldable pub set_hashtable : Hashtable → List ℕ → ℕ → ℕ → Option (ℕ × Hashtable)
set_hashtable = Layered.update byte_keys

-- `hashtable_take_tagged` calls itself once at most: fuel 2 is enough.
unfoldable pub take_tagged_hashtable : Hashtable → List ℕ → ℕ → ℕ → Option (ℕ × Hashtable)
take_tagged_hashtable = Layered.take_tagged byte_keys 2

unfoldable pub add_hashtable : Hashtable → List ℕ → ℕ → Option (ℕ × Hashtable)
add_hashtable = Layered.add byte_keys 2
