-- ===== src/Registry/Entries.antt =====
-- The text of a segment's record: it fits into the client's buffer, and is read back as it was.
use rdma_migration_system.Prelude.{
  ℕ, ◌+◌, ◌≤◌, ◌≡◌, refl, arith, Bool, true, not, ◌&&◌, Option, some, none, [], ◌∷◌,
}
use rdma_migration_system.Prelude.Tests.{◌==◌}
use rdma_migration_system.Prelude.Lists.{length}
use rdma_migration_system.Prelude.Results.{ok}
use rdma_migration_system.Prelude.Maps.{Map}
use rdma_migration_system.Prelude.Integers.{ℤ}
use rdma_migration_system.Records.{comma, map_to_zs, zs_to_map}
use rdma_migration_system.Records.Order.{Text}
use rdma_migration_system.Records.Fields.{Plain, c_str-Plain, entry_length}
use rdma_migration_system.Records.Sorted.{Sorted, AllPlain, zs_to_map-Sorted}
use rdma_migration_system.Records.Digits.{
  to_string-Plain, int_to_string-Plain, to_string-length, int_to_string-length,
}
use rdma_migration_system.Registry.{Storable}
use rdma_migration_system.Registry.Texts.{map_to_zs-NoZero}
use rdma_migration_system.Registry.Segments.{
  address_key, client_key, destination_key, size_key, source_key,
}
use rdma_migration_system.Registry.Spec.{
  SegmentInfo, IsValid, FitsIfAny, destination_text, entries_of,
}

is_plain : Text → Bool
is_plain [] = true
is_plain (c ∷ cs) = not (c == comma) && (not (c == 0) && is_plain cs)

is_plain-Plain : (s : Text) → is_plain s ≡ true → Plain s
unfolding is_plain
is_plain-Plain [] e = tt
is_plain-Plain (c ∷ cs) e = (
  λ same. ground (arith, e, same),
  λ same. ground (arith, e, same),
  is_plain-Plain cs (ground (arith, e)),
)

destination_text-Plain : (d : Option ℤ) → Plain (destination_text d)
destination_text-Plain none = tt
destination_text-Plain (some d) = int_to_string-Plain d

destination_text-length : (d : Option ℤ) → FitsIfAny d → length (destination_text d) ≤ 21
destination_text-length none fits = omega arith
destination_text-length (some d) fits = int_to_string-length d fits

entries_of-Sorted : (s : SegmentInfo) → Sorted (entries_of s)
entries_of-Sorted s = (
  (refl, (refl, (refl, (refl, tt)))),
  ((refl, (refl, (refl, tt))), ((refl, (refl, tt)), ((refl, tt), (tt, tt)))),
)

entries_of-AllPlain : (s : SegmentInfo) → AllPlain (entries_of s)
unfolding is_plain
entries_of-AllPlain s = (
  is_plain-Plain address_key refl,
  to_string-Plain s.address,
  (
    is_plain-Plain client_key refl,
    int_to_string-Plain s.client,
    (
      is_plain-Plain destination_key refl,
      destination_text-Plain s.destination,
      (
        is_plain-Plain size_key refl,
        to_string-Plain s.size,
        (is_plain-Plain source_key refl, int_to_string-Plain s.source, tt),
      ),
    ),
  ),
)

-- The text of a record is read as that record.
pub zs_to_map-entries_of :
    (s : SegmentInfo) → zs_to_map (map_to_zs (entries_of s)) ≡ some (ok (entries_of s))
zs_to_map-entries_of s =
    zs_to_map-Sorted (entries_of s) (entries_of-Sorted s) (entries_of-AllPlain s)

-- The length of the text of a map of plain texts.
abbrev text_length : Map Text Text → ℕ
text_length [] = 0
text_length ((k, v) ∷ m) = length k + length v + text_length m + 2

map_to_zs-length : (m : Map Text Text) → AllPlain m → length (map_to_zs m) ≡ text_length m
unfolding map_to_zs
map_to_zs-length [] p = refl
map_to_zs-length ((k, v) ∷ m) (pk, pv, p) =
    rw (c_str-Plain k pk, c_str-Plain v pv)
      (omega (arith, entry_length k v (map_to_zs m), map_to_zs-length m p))

pub entries_of-Storable :
    (s : SegmentInfo) → IsValid s → FitsIfAny s.destination → Storable (map_to_zs (entries_of s))
entries_of-Storable s valid fits = (
  omega (
    arith,
    map_to_zs-length (entries_of s) (entries_of-AllPlain s),
    to_string-length s.address valid.address_fits,
    to_string-length s.size valid.size_fits,
    int_to_string-length s.source valid.source_fits,
    int_to_string-length s.client valid.client_fits,
    destination_text-length s.destination fits,
  ),
  map_to_zs-NoZero (entries_of s) (entries_of-AllPlain s),
)
