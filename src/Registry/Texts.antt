-- ===== src/Registry/Texts.antt =====
-- The texts that the servers store fit into the client's buffer, and have no zero in them.
use rdma_migration_system.Prelude.{ℕ, ◌<◌, ◌≡◌, refl, arith, List, [], ◌∷◌, ◌++◌}
use rdma_migration_system.Prelude.Tests.{==_iff}
use rdma_migration_system.Prelude.Word.{word_mod}
use rdma_migration_system.Prelude.Integers.{ℤ}
use rdma_migration_system.Prelude.Maps.{Map}
use rdma_migration_system.Records.{comma, c_str, map_to_zs, process_list_to_zs}
use rdma_migration_system.Records.Order.{Text}
use rdma_migration_system.Records.Decimal.{to_string}
use rdma_migration_system.Records.Signed.{int_to_string}
use rdma_migration_system.Records.Digits.{int_to_string-Plain, to_string-Plain, to_string-length}
use rdma_migration_system.Records.Fields.{Plain, c_str-Plain}
use rdma_migration_system.Records.Sorted.{AllPlain}
use rdma_migration_system.Registry.{NoZero, Storable}

pub c_str-NoZero : (s : Text) → NoZero s → c_str s ≡ s
c_str-NoZero [] h = refl
c_str-NoZero (c ∷ cs) (nz, h) = ground (arith, c_str-NoZero cs h, ==_iff c 0)

pub Plain-NoZero : (s : Text) → Plain s → NoZero s
Plain-NoZero [] p = tt
Plain-NoZero (c ∷ cs) (_, nz, p) = (nz, Plain-NoZero cs p)

pub NoZero-append : (a b : Text) → NoZero a → NoZero b → NoZero (a ++ b)
NoZero-append [] b p q = q
NoZero-append (c ∷ a) b (nz, p) q = (nz, NoZero-append a b p q)

comma_field : (a b : Text) → Plain a → NoZero b → NoZero (a ++ (comma ∷ b))
comma_field a b p q = NoZero-append a (comma ∷ b) (Plain-NoZero a p) ((λ e. ground (arith, e)), q)

pub map_to_zs-NoZero : (m : Map Text Text) → AllPlain m → NoZero (map_to_zs m)
unfolding map_to_zs
map_to_zs-NoZero [] p = tt
map_to_zs-NoZero ((k, v) ∷ m) (pk, pv, p) =
    rw (c_str-Plain k pk, c_str-Plain v pv)
      (comma_field k (v ++ (comma ∷ map_to_zs m)) pk
        (comma_field v (map_to_zs m) pv (map_to_zs-NoZero m p)))

pub process_list_to_zs-NoZero : (ids : List ℤ) → NoZero (process_list_to_zs ids)
unfolding process_list_to_zs
process_list_to_zs-NoZero [] = tt
process_list_to_zs-NoZero (id ∷ ids) =
    comma_field (int_to_string id) (process_list_to_zs ids) (int_to_string-Plain id)
      (process_list_to_zs-NoZero ids)

pub number-Storable : (n : ℕ) → n < word_mod → Storable (to_string n)
number-Storable n room =
    (omega (arith, to_string-length n room), Plain-NoZero (to_string n) (to_string-Plain n))
