-- ===== src/Registry/Spec.antt =====
-- What the nodes under "/memory_segments" stand for: a map from the ids of the application to the
-- segments, and what each call on a segment's record does to it.
use rdma_migration_system.Prelude.{ℕ, ◌≡◌, ◌<◌, Option, some, none, Bool, false, [], ◌∷◌}
use rdma_migration_system.Prelude.Tests.{if◌then◌else◌}
use rdma_migration_system.Prelude.Results.{Result, ok}
use rdma_migration_system.Prelude.Word.{word_mod}
use rdma_migration_system.Prelude.Integers.{ℤ, IsLong, int_beq}
use rdma_migration_system.Prelude.Maps.{Map}
use rdma_migration_system.Records.{map_to_zs}
use rdma_migration_system.Records.Order.{Text}
use rdma_migration_system.Records.Decimal.{to_string}
use rdma_migration_system.Records.Signed.{int_to_string}
use rdma_migration_system.Registry.{ZooKeeper}
use rdma_migration_system.Registry.Segments.{
  segment_path, address_key, client_key, destination_key, size_key, source_key,
  create_memory_segment_node, update_segment_destination, clean_memory_segment,
  delete_memory_segment,
}

-- A segment: where it is, who has it, and who gets it, if anybody.
pub record SegmentInfo : Type 0 where
  pub address : ℕ
  pub size : ℕ
  pub source : ℤ
  pub destination : Option ℤ
  pub client : ℤ

pub record IsValid (s : SegmentInfo) : Type 0 where
  pub address_fits : s.address < word_mod
  pub size_fits : s.size < word_mod
  pub source_fits : IsLong s.source
  pub client_fits : IsLong s.client

abbrev pub destination_text : Option ℤ → Text
destination_text none = []
destination_text (some d) = int_to_string d

abbrev pub FitsIfAny : Option ℤ → Type 0
FitsIfAny none = Unit {0}
FitsIfAny (some d) = IsLong d

-- The record of a segment, in the order of its keys.
abbrev pub entries_of : SegmentInfo → Map Text Text
entries_of s =
    (address_key, to_string s.address)
    ∷ (client_key, int_to_string s.client)
    ∷ (destination_key, destination_text s.destination)
    ∷ (size_key, to_string s.size)
    ∷ (source_key, int_to_string s.source)
    ∷ []

abbrev pub Registered : Type 0
Registered = ℤ → Option SegmentInfo

abbrev pub assign : ℤ → Option SegmentInfo → Registered → Registered
assign id o r j = if int_beq id j then o else r j

-- The calls that write a segment's record.
pub data Op : Type 0 where
  create : (address size : ℕ) (source destination id : ℤ) → Op
  update : (id destination : ℤ) → Op
  clean : (id : ℤ) → Op
  delete : (id source : ℤ) → Op

abbrev pub FitsOp : Op → Type 0
FitsOp (create address size source destination id) =
    (address < word_mod) × (size < word_mod) × IsLong source × IsLong destination × IsLong id
FitsOp (update id destination) = IsLong id × IsLong destination
FitsOp (clean id) = IsLong id
FitsOp (delete id source) = IsLong id

-- A segment as it is created.
abbrev pub created : ℕ → ℕ → ℤ → ℤ → ℤ → SegmentInfo
created address size source destination id = record {
  address = address;
  size = size;
  source = source;
  destination = some destination;
  client = id;
}

-- What a call does to the segment of its id, and `none` where it has nothing to work on.
abbrev pub change : ℤ → Op → Option SegmentInfo → Option (Option SegmentInfo)
change server_id (create address size source destination id) none =
    some (some (created address size source destination id))
change server_id (create address size source destination id) (some s) = none
change server_id (update id destination) (some s) =
    some (some (record s { destination = some destination }))
change server_id (clean id) (some s) =
    some (some (record s { source = server_id; destination = none }))
change server_id (delete id source) (some s) = some none
change server_id _ none = none

abbrev pub target : Op → ℤ
target (create address size source destination id) = id
target (update id destination) = id
target (clean id) = id
target (delete id source) = id

module _ {Z : Type 0} (zk : ZooKeeper Z) where
  abbrev pub run : ℤ → Op → Z → Result (Z × Bool)
  run server_id (create address size source destination id) z =
      ok (create_memory_segment_node zk z address size source destination id)
  run server_id (update id destination) z = update_segment_destination zk z id destination
  run server_id (clean id) z = clean_memory_segment zk server_id z id
  run server_id (delete id source) z = delete_memory_segment zk z id source

  -- The node of a segment holds the text of its record, and there is no node where there is no
  -- segment.
  abbrev pub Held : Z → Text → Option SegmentInfo → Type 0
  Held z path none = zk.get z path ≡ none
  Held z path (some s) =
      IsValid s
      × FitsIfAny s.destination
      × ((v : ℕ) × (zk.get z path ≡ some (map_to_zs (entries_of s), v)))

  abbrev pub Represents : Z → Registered → Type 0
  Represents z r = (id : ℤ) → IsLong id → Held z (segment_path id) (r id)

  -- The service does not confirm a write of this text with the version that the node has.
  abbrev pub SetFails : Z → Text → Text → Type 0
  SetFails z path text =
      (old : Text) × (v : ℕ) × (zk.get z path ≡ some (old, v)) × ((zk.set z path text v).1 ≡ false)

  abbrev pub RemoveFails : Z → Text → Type 0
  RemoveFails z path =
      (old : Text) × (v : ℕ) × (zk.get z path ≡ some (old, v)) × ((zk.remove z path v).1 ≡ false)

  -- The service does not confirm the write that a call is to make: of the record as the call should
  -- change it, with the version that the record has.
  abbrev pub Unconfirmed : ℤ → Op → Z → Registered → Type 0
  Unconfirmed server_id (create address size source destination id) z r =
      (zk.create z (segment_path id)
        (map_to_zs (entries_of (created address size source destination id)))).1
      ≡ false
  Unconfirmed server_id (update id destination) z r =
      (s : SegmentInfo) × (r id ≡ some s)
      × SetFails z (segment_path id)
          (map_to_zs (entries_of (record s { destination = some destination })))
  Unconfirmed server_id (clean id) z r =
      (s : SegmentInfo) × (r id ≡ some s)
      × SetFails z (segment_path id)
          (map_to_zs (entries_of (record s { source = server_id; destination = none })))
  Unconfirmed server_id (delete id source) z r = RemoveFails z (segment_path id)
