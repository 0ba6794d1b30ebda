-- ===== src/Records/Fields.antt =====
-- `ZStoMAP` and `MAPtoZS` of include/utils/miscutils.hpp, one after the other.
use rdma_migration_system.Prelude.{
  ℕ, zero, suc, ◌+◌, ◌≤◌, ◌<◌, ◌≡◌, ◌≢◌, refl, ◌∙◌, inl, inr, arith, Option, some, none, [], ◌∷◌,
  ◌++◌,
}
use rdma_migration_system.Prelude.Tests.{◌==◌, Bool-cases, ==_iff}
use rdma_migration_system.Prelude.Lists.{length, length-append}
use rdma_migration_system.Prelude.Results.{Result, ok, err, Result-cases}
use rdma_migration_system.Prelude.Maps.{Map, lookup, insert, lookup-insert}
use rdma_migration_system.Records.{
  comma, c_str, map_to_zs, take_field, take_pair, read_map, zs_to_map,
}
use rdma_migration_system.Records.Order.{Text, text_key, text_eq, text_eq_iff}

-- No comma and no zero.
abbrev pub Plain : Text → Type 0
Plain [] = Unit {0}
Plain (c ∷ cs) = (c ≢ comma) × (c ≢ 0) × Plain cs

-- Plain texts under different keys.
abbrev pub Proper : Map Text Text → Type 0
Proper [] = Unit {0}
Proper ((key, val) ∷ m) = Plain key × Plain val × (lookup key m ≡ none) × Proper m

pub c_str-Plain : (s : Text) → Plain s → c_str s ≡ s
c_str-Plain [] p = refl
c_str-Plain (c ∷ cs) (_, nz, p) = ground (arith, c_str-Plain cs p, ==_iff c 0)

pub take_field-Plain : (s rest : Text) → Plain s → take_field (s ++ (comma ∷ rest)) ≡ ok (s, rest)
unfolding take_field
take_field-Plain [] rest p = refl
take_field-Plain (c ∷ cs) rest (nc, _, p) =
    ground (arith, take_field-Plain cs rest p, ==_iff c comma)

pub take_pair-Plain :
    (key val rest : Text)
    → Plain key
    → Plain val
    → take_pair (key ++ (comma ∷ (val ++ (comma ∷ rest)))) ≡ ok (key, val, rest)
unfolding take_pair
take_pair-Plain key val rest pk pv =
    rw (take_field-Plain key (val ++ (comma ∷ rest)) pk, take_field-Plain val rest pv, take_pair)
      refl

-- A round on a text that is not empty.
pub read_map-step :
    (fuel : ℕ) (s key val rest : Text) (res : Map Text Text)
    → 0 < length s
    → take_pair s ≡ ok (key, val, rest)
    → read_map (suc fuel) s res ≡ read_map fuel rest (insert key val res)
unfolding read_map
read_map-step fuel [] key val rest res some_text e = elim some_text [ ]
read_map-step fuel (c ∷ cs) key val rest res some_text e = rw (e, read_map) refl

-- The value that the first map has, or else the second.
abbrev pub over : Option Text → Option Text → Option Text
over none old = old
over (some v) old = some v

over-insert :
    (key val k : Text) (m res : Map Text Text)
    → lookup key m ≡ none
    → over (lookup k m) (lookup k (insert key val res))
      ≡ over (lookup k ((key, val) ∷ m)) (lookup k res)
over-insert key val k m res fresh = elim (Bool-cases (text_eq key k)) [
  | inl same ↦
      let here : lookup k m ≡ none = rw (← (text_eq_iff key k).0 same) fresh in
      rw (here, lookup-insert key k val res, same) refl
  | inr differs ↦ rw (lookup-insert key k val res, differs) refl
]

pub entry_length :
    (key val rest : Text)
    → length (key ++ (comma ∷ (val ++ (comma ∷ rest)))) ≡ length key + length val + length rest + 2
entry_length key val rest =
    omega
      (arith, length-append key (comma ∷ (val ++ (comma ∷ rest))), length-append val (comma ∷ rest))

-- The map that is read has the entries of `m`, and those of `res` under other keys.
abbrev Reads : ℕ → Text → Map Text Text → Map Text Text → Type 0
Reads fuel s m res =
    (d : Map Text Text) × (read_map fuel s res ≡ some (ok d))
    × ((k : Text) → lookup k d ≡ over (lookup k m) (lookup k res))

read_map-Reads :
    (fuel : ℕ) (m res : Map Text Text)
    → Proper m
    → length (map_to_zs m) ≤ fuel
    → Reads fuel (map_to_zs m) m res
unfolding map_to_zs read_map
read_map-Reads fuel [] res p enough = (res, refl, λ k. refl)
read_map-Reads zero ((key, val) ∷ m) res (pk, pv, fresh, p) enough =
    absurd (omega (arith, enough, entry_length (c_str key) (c_str val) (map_to_zs m)))
read_map-Reads (suc fuel) ((key, val) ∷ m) res (pk, pv, fresh, p) enough =
    let rest = map_to_zs m in
    let size = entry_length (c_str key) (c_str val) rest in
    let (d, ran, same) =
      read_map-Reads fuel m (insert key val res) p (omega (arith, enough, size)) in
    let pair : take_pair (map_to_zs ((key, val) ∷ m)) ≡ ok (key, val, rest) =
      rw (c_str-Plain key pk, c_str-Plain val pv) (take_pair-Plain key val rest pk pv) in
    (
      d,
      read_map-step fuel (map_to_zs ((key, val) ∷ m)) key val rest res (omega (arith, size)) pair
          ∙ ran,
      λ k. same k ∙ over-insert key val k m res fresh,
    )

-- `ZStoMAP` of the text that `MAPtoZS` makes of a map returns a map with the same entries, where no
-- key and no value has a comma or a zero in it.
pub zs_to_map-map_to_zs :
    (m : Map Text Text)
    → Proper m
    → (d : Map Text Text) × (zs_to_map (map_to_zs m) ≡ some (ok d))
      × ((k : Text) → lookup k d ≡ lookup k m)
unfolding zs_to_map
zs_to_map-map_to_zs m p =
    let (d, ran, same) = read_map-Reads (length (map_to_zs m)) m [] p (omega arith) in
    (d, ran, λ k. same k ∙ over_none (lookup k m))
  where
    over_none : (o : Option Text) → over o none ≡ o
    over_none none = refl
    over_none (some v) = refl

pub take_field-shrinks :
    (s field rest : Text) → take_field s ≡ ok (field, rest) → length rest < length s
unfolding take_field
take_field-shrinks [] field rest e = ground arith
take_field-shrinks (c ∷ cs) field rest e = elim (Bool-cases (c == comma)) [
  | inl here ↦ ground arith
  | inr later ↦ elim (Result-cases (take_field cs)) [
    | inl ((f, r), ran) ↦ ground (arith, take_field-shrinks cs f r ran)
    | inr (fault, ran) ↦ ground arith
  ]
]

take_pair-shrinks :
    (s key val rest : Text) → take_pair s ≡ ok (key, val, rest) → length rest < length s
unfolding take_pair
take_pair-shrinks s key val rest e = elim (Result-cases (take_field s)) [
  | inr (fault, ran) ↦ ground arith
  | inl ((k, after), ran) ↦ elim (Result-cases (take_field after)) [
    | inr (fault, ran') ↦ ground arith
    | inl ((v, last), ran') ↦
        ground (arith, take_field-shrinks s k after ran, take_field-shrinks after v last ran')
  ]
]

read_map-ends :
    (fuel : ℕ) (s : Text) (res : Map Text Text)
    → length s ≤ fuel
    → (r : Result (Map Text Text)) × (read_map fuel s res ≡ some r)
unfolding read_map
read_map-ends fuel [] res enough = (ok res, refl)
read_map-ends zero (c ∷ cs) res enough = absurd (omega (arith, enough))
read_map-ends (suc fuel) (c ∷ cs) res enough = elim (Result-cases (take_pair (c ∷ cs))) [
  | inr (fault, ran) ↦ (err fault, rw (ran, read_map) refl)
  | inl ((key, val, rest), ran) ↦
      let (r, ended) =
        read_map-ends fuel rest (insert key val res)
          (omega (arith, enough, take_pair-shrinks (c ∷ cs) key val rest ran)) in
      (r, rw (ran, read_map) ended)
]

-- The loop of `ZStoMAP` ends on every text: it returns a map, or throws.
pub zs_to_map-ends : (s : Text) → (r : Result (Map Text Text)) × (zs_to_map s ≡ some r)
unfolding zs_to_map
zs_to_map-ends s = read_map-ends (length s) s [] (omega arith)
