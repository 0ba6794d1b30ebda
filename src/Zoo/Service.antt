-- ===== src/Zoo/Service.antt =====
-- A ZooKeeper service in memory, and the servers' client of it.
use rdma_migration_system.Prelude.{
  ℕ, suc, ◌≡◌, ◌≢◌, ◌<◌, refl, ap, ◌∙◌, inl, inr, arith, Option, some, none, Bool, true, false,
}
use rdma_migration_system.Prelude.Tests.{◌==◌, ==_iff, Bool-cases, Option-cases, if◌then◌else◌}
use rdma_migration_system.Prelude.Maps.{Map, lookup, insert, erase, lookup-insert, lookup-erase}
use rdma_migration_system.Records.Order.{Text, text_key, text_eq, text_eq_iff}
use rdma_migration_system.Registry.{Elsewhere, ZooKeeper}
use rdma_migration_system.Zoo.{get, set, Node, cut, node_version, ZooClient}
use rdma_migration_system.Zoo.Laws.{zookeeper}

abbrev pub Memory : Type 0
Memory = Map Text Node

abbrev pub node : Memory → Text → Option Node
node z path = lookup path z

abbrev pub write : Memory → Text → Text → ℕ → Memory × Bool
write z path bytes version = elim (node z path) [
  | none ↦ (z, false)
  | some (old, v) ↦ if v == version then (insert path (some bytes, suc v) z, true) else (z, false)
]

abbrev pub add : Memory → Text → Text → Memory × Option Text
add z path bytes = elim (node z path) [
  | none ↦ (insert path (some bytes, 0) z, some path)
  | some n ↦ (z, none)
]

abbrev pub drop : Memory → Text → ℕ → Memory × Bool
drop z path version = elim (node z path) [
  | none ↦ (z, false)
  | some (old, v) ↦ if v == version then (erase path z, true) else (z, false)
]

differ : (path other : Text) → other ≢ path → text_eq path other ≡ false
differ path other apart = elim (Bool-cases (text_eq path other)) [
  | inl same ↦ absurd (apart (ground (arith, (text_eq_iff path other).0 same)))
  | inr differs ↦ differs
]

inserted : (path : Text) (n : Node) (z : Memory) → node (insert path n z) path ≡ some n
inserted path n z = rw (lookup-insert path path n z, (text_eq_iff path path).1 refl) refl

insert-Elsewhere : (path : Text) (n : Node) (z : Memory) → Elsewhere node path z (insert path n z)
insert-Elsewhere path n z other apart =
    rw (lookup-insert path other n z, differ path other apart) refl

erased : (path : Text) (z : Memory) → node (erase path z) path ≡ none
erased path z = rw (lookup-erase path path z, (text_eq_iff path path).1 refl) refl

erase-Elsewhere : (path : Text) (z : Memory) → Elsewhere node path z (erase path z)
erase-Elsewhere path z other apart = rw (lookup-erase path other z, differ path other apart) refl

-- A write that was taken met the version.
write_met :
    (z : Memory) (path bytes : Text) (version : ℕ)
    → (write z path bytes version).1 ≡ true
    → (old : Option Text) × (node z path ≡ some (old, version))
      × ((write z path bytes version).0 ≡ insert path (some bytes, suc version) z)
write_met z path bytes version e = elim (Option-cases (node z path)) [
  | inl gone ↦ absurd (ground (arith, e, gone))
  | inr ((old, v), there) ↦
      (old, ground (arith, e, there, ==_iff v version), ground (arith, e, there, ==_iff v version))
]

pub write_ok :
    (z : Memory) (path bytes : Text) (version : ℕ)
    → (write z path bytes version).1 ≡ true
    → ((old : Option Text) × (node z path ≡ some (old, version)))
      × ((w : ℕ) × (version < w)
          × (node (write z path bytes version).0 path ≡ some (some bytes, w)))
      × Elsewhere node path z (write z path bytes version).0
write_ok z path bytes version e =
    let (old, before, after) = write_met z path bytes version e in
    (
      (old, before),
      (
        suc version,
        omega arith,
        ap (λ m. node m path) after ∙ inserted path (some bytes, suc version) z,
      ),
      rw after (insert-Elsewhere path (some bytes, suc version) z),
    )

pub write_fails :
    (z : Memory) (path bytes : Text) (version : ℕ)
    → (write z path bytes version).1 ≡ false
    → (write z path bytes version).0 ≡ z
write_fails z path bytes version e = elim (Option-cases (node z path)) [
  | inl gone ↦ ground (arith, e, gone)
  | inr ((old, v), there) ↦ ground (arith, e, there)
]

add_met :
    (z : Memory) (path bytes name : Text)
    → (add z path bytes).1 ≡ some name
    → (node z path ≡ none) × ((add z path bytes).0 ≡ insert path (some bytes, 0) z)
add_met z path bytes name e = elim (Option-cases (node z path)) [
  | inl gone ↦ (gone, ground (arith, gone))
  | inr (n, there) ↦ absurd (ground (arith, e, there))
]

pub add_ok :
    (z : Memory) (path bytes name : Text)
    → (add z path bytes).1 ≡ some name
    → (node z path ≡ none)
      × ((w : ℕ) × (node (add z path bytes).0 path ≡ some (some bytes, w)))
      × Elsewhere node path z (add z path bytes).0
add_ok z path bytes name e =
    let (free, after) = add_met z path bytes name e in
    (
      free,
      (0, ap (λ m. node m path) after ∙ inserted path (some bytes, 0) z),
      rw after (insert-Elsewhere path (some bytes, 0) z),
    )

pub add_fails :
    (z : Memory) (path bytes : Text) → (add z path bytes).1 ≡ none → (add z path bytes).0 ≡ z
add_fails z path bytes e = elim (Option-cases (node z path)) [
  | inl gone ↦ ground (arith, e, gone)
  | inr (n, there) ↦ ground (arith, there)
]

drop_met :
    (z : Memory) (path : Text) (version : ℕ)
    → (drop z path version).1 ≡ true
    → (old : Option Text) × (node z path ≡ some (old, version))
      × ((drop z path version).0 ≡ erase path z)
drop_met z path version e = elim (Option-cases (node z path)) [
  | inl gone ↦ absurd (ground (arith, e, gone))
  | inr ((old, v), there) ↦
      (old, ground (arith, e, there, ==_iff v version), ground (arith, e, there, ==_iff v version))
]

pub drop_ok :
    (z : Memory) (path : Text) (version : ℕ)
    → (drop z path version).1 ≡ true
    → ((old : Option Text) × (node z path ≡ some (old, version)))
      × (node (drop z path version).0 path ≡ none)
      × Elsewhere node path z (drop z path version).0
drop_ok z path version e =
    let (old, before, after) = drop_met z path version e in
    ((old, before), ap (λ m. node m path) after ∙ erased path z, rw after (erase-Elsewhere path z))

pub drop_fails :
    (z : Memory) (path : Text) (version : ℕ)
    → (drop z path version).1 ≡ false
    → (drop z path version).0 ≡ z
drop_fails z path version e = elim (Option-cases (node z path)) [
  | inl gone ↦ ground (arith, e, gone)
  | inr ((old, v), there) ↦ ground (arith, e, there)
]

abbrev pub in_memory : ZooClient Memory
in_memory = record {
  node = λ z path. node z path;
  zoo_get = λ z path n. cut n (node z path);
  zoo_get_node = λ z path n. refl;
  zoo_exists = λ z path. node_version (node z path);
  zoo_exists_node = λ z path. refl;
  zoo_set = λ z path bytes version. write z path bytes version;
  zoo_create = λ z path bytes. add z path bytes;
  zoo_delete = λ z path version. drop z path version;
  zoo_set_ok = write_ok;
  zoo_set_fails = λ z path bytes version e. inl (write_fails z path bytes version e);
  zoo_create_ok = add_ok;
  zoo_create_fails = λ z path bytes e. inl (add_fails z path bytes e);
  zoo_delete_ok = drop_ok;
  zoo_delete_fails = λ z path version e. inl (drop_fails z path version e);
}

abbrev pub memory_client : ZooKeeper Memory
memory_client = zookeeper in_memory

-- A write with the version that was read is taken.
pub memory_takes :
    (z : Memory) (path old text : Text) (version : ℕ)
    → memory_client.get z path ≡ some (old, version)
    → (memory_client.set z path text version).1 ≡ true
unfolding get set
memory_takes z path old text version stored = elim (Option-cases (node z path)) [
  | inl gone ↦ absurd (ground (arith, stored, gone))
  | inr ((none, v), there) ↦ ground (arith, stored, there, ==_iff v version)
  | inr ((some bytes, v), there) ↦ ground (arith, stored, there, ==_iff v version)
]
