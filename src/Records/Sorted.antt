-- ===== src/Records/Sorted.antt =====
-- `std::map`: its keys rise, and the text of a map is read back as that map.
use rdma_migration_system.Prelude.{
  ℕ, zero, suc, ◌≤◌, ◌≡◌, refl, ◌∙◌, ap, sym, arith, inl, inr, true, false, some, [], ◌∷◌, ◌++◌,
}
use rdma_migration_system.Prelude.Tests.{Bool-cases}
use rdma_migration_system.Prelude.Lists.{length, append_one, append_none}
use rdma_migration_system.Prelude.Results.{ok}
use rdma_migration_system.Prelude.Maps.{Map, insert}
use rdma_migration_system.Records.{c_str, map_to_zs, read_map, zs_to_map}
use rdma_migration_system.Records.Order.{Text, text_key, text_eq, text_lt, text_eq_iff}
use rdma_migration_system.Records.Fields.{
  Plain, c_str-Plain, entry_length, take_pair-Plain, read_map-step,
}

text_lt_irrefl : (a : Text) → text_lt a a ≡ false
text_lt_irrefl [] = refl
text_lt_irrefl (x ∷ xs) = ground (arith, text_lt_irrefl xs)

text_lt_trans : (a b c : Text) → text_lt a b ≡ true → text_lt b c ≡ true → text_lt a c ≡ true
text_lt_trans [] [] c h k = ground arith
text_lt_trans [] (y ∷ ys) [] h k = ground arith
text_lt_trans [] (y ∷ ys) (z ∷ zs) h k = refl
text_lt_trans (x ∷ xs) [] c h k = ground arith
text_lt_trans (x ∷ xs) (y ∷ ys) [] h k = ground arith
text_lt_trans (x ∷ xs) (y ∷ ys) (z ∷ zs) h k = ground (arith, text_lt_trans xs ys zs)

text_lt_total : (a b : Text) → text_eq a b ≡ false → text_lt b a ≡ false → text_lt a b ≡ true
text_lt_total [] [] h k = ground arith
text_lt_total [] (y ∷ ys) h k = refl
text_lt_total (x ∷ xs) [] h k = ground arith
text_lt_total (x ∷ xs) (y ∷ ys) h k = ground (arith, text_lt_total xs ys)

text_lt_differs : (a b : Text) → text_lt a b ≡ true → text_eq a b ≡ false
text_lt_differs [] [] h = ground arith
text_lt_differs [] (y ∷ ys) h = refl
text_lt_differs (x ∷ xs) [] h = refl
text_lt_differs (x ∷ xs) (y ∷ ys) h = ground (arith, text_lt_differs xs ys)

-- Each key is greater than `k`.
abbrev Above : Text → Map Text Text → Type 0
Above k [] = Unit {0}
Above k ((j, v) ∷ m) = (text_lt k j ≡ true) × Above k m

abbrev pub Sorted : Map Text Text → Type 0
Sorted [] = Unit {0}
Sorted ((k, v) ∷ m) = Above k m × Sorted m

-- No key and no value has a comma or a zero in it.
abbrev pub AllPlain : Map Text Text → Type 0
AllPlain [] = Unit {0}
AllPlain ((k, v) ∷ m) = Plain k × Plain v × AllPlain m

Above-insert :
    (j k : Text) (v : Text) (m : Map Text Text)
    → text_lt j k ≡ true
    → Above j m
    → Above j (insert k v m)
Above-insert j k v [] h a = (h, tt)
Above-insert j k v ((i, w) ∷ m) h (b, a) = elim (Bool-cases (text_eq i k)) [
  | inl same ↦ rw same (h, a)
  | inr differs ↦ elim (Bool-cases (text_lt k i)) [
    | inl less ↦ rw (differs, less) (h, (b, a))
    | inr more ↦ rw (differs, more) (b, Above-insert j k v m h a)
  ]
]

Above-trans : (j k : Text) (m : Map Text Text) → text_lt j k ≡ true → Above k m → Above j m
Above-trans j k [] h a = tt
Above-trans j k ((i, w) ∷ m) h (b, a) = (text_lt_trans j k i h b, Above-trans j k m h a)

pub insert-Sorted : (k v : Text) (m : Map Text Text) → Sorted m → Sorted (insert k v m)
insert-Sorted k v [] s = (tt, tt)
insert-Sorted k v ((i, w) ∷ m) (a, s) = elim (Bool-cases (text_eq i k)) [
  | inl same ↦ rw same (rw (← (text_eq_iff i k).0 same) a, s)
  | inr differs ↦ elim (Bool-cases (text_lt k i)) [
    | inl less ↦ rw (differs, less) ((less, Above-trans k i m less a), (a, s))
    | inr more ↦
        rw (differs, more)
          (Above-insert i k v m (text_lt_total i k differs more) a, insert-Sorted k v m s)
  ]
]

pub insert-AllPlain :
    (k v : Text) (m : Map Text Text) → Plain k → Plain v → AllPlain m → AllPlain (insert k v m)
insert-AllPlain k v [] pk pv p = (pk, pv, tt)
insert-AllPlain k v ((i, w) ∷ m) pk pv (pi, pw, p) = elim (Bool-cases (text_eq i k)) [
  | inl same ↦ rw same (pk, pv, p)
  | inr differs ↦ elim (Bool-cases (text_lt k i)) [
    | inl less ↦ rw (differs, less) (pk, pv, (pi, pw, p))
    | inr more ↦ rw (differs, more) (pi, pw, insert-AllPlain k v m pk pv p)
  ]
]

-- Each key of the one map is less than each key of the other.
abbrev Before : Map Text Text → Map Text Text → Type 0
Before [] m = Unit {0}
Before ((k, v) ∷ res) m = Above k m × Before res m

insert_last :
    (k v : Text) (res : Map Text Text)
    → Before res ((k, v) ∷ [])
    → insert k v res ≡ res ++ ((k, v) ∷ [])
insert_last k v [] b = refl
insert_last k v ((j, w) ∷ res) ((less, _), b) = ground (
  arith,
  text_lt_differs j k less,
  text_lt_trans j k j less,
  text_lt_irrefl j,
  insert_last k v res b,
)

Before-part :
    (k v : Text) (res m : Map Text Text)
    → Before res ((k, v) ∷ m)
    → Before res ((k, v) ∷ []) × Before res m
Before-part k v [] m b = (tt, tt)
Before-part k v ((j, w) ∷ res) m ((less, a), b) =
    let (one, rest) = Before-part k v res m b in (((less, tt), one), (a, rest))

Before-append :
    (k v : Text) (res m : Map Text Text)
    → Before res m
    → Above k m
    → Before (res ++ ((k, v) ∷ [])) m
Before-append k v [] m b a = (a, tt)
Before-append k v ((j, w) ∷ res) m (b, bs) a = (b, Before-append k v res m bs a)

read_map-Sorted :
    (fuel : ℕ) (m res : Map Text Text)
    → Sorted m
    → AllPlain m
    → Before res m
    → length (map_to_zs m) ≤ fuel
    → read_map fuel (map_to_zs m) res ≡ some (ok (res ++ m))
unfolding map_to_zs read_map
read_map-Sorted fuel [] res s p b enough = ap (λ d. some (ok d)) (sym (append_none res))
read_map-Sorted zero ((k, v) ∷ m) res s p b enough =
    absurd (omega (arith, enough, entry_length (c_str k) (c_str v) (map_to_zs m)))
read_map-Sorted (suc fuel) ((k, v) ∷ m) res (a, s) (pk, pv, p) b enough =
    let size = entry_length (c_str k) (c_str v) (map_to_zs m) in
    let (one, rest) = Before-part k v res m b in
    let last : insert k v res ≡ res ++ ((k, v) ∷ []) = insert_last k v res one in
    read_map-step fuel (map_to_zs ((k, v) ∷ m)) k v (map_to_zs m) res (omega (arith, size))
      (rw (c_str-Plain k pk, c_str-Plain v pv) (take_pair-Plain k v (map_to_zs m) pk pv))
    ∙ (ap (λ d. read_map fuel (map_to_zs m) d) last
        ∙ (read_map-Sorted fuel m (res ++ ((k, v) ∷ [])) s p (Before-append k v res m rest a)
              (omega (arith, enough, size))
            ∙ ap (λ d. some (ok d)) (append_one res m (k, v))))

-- `ZStoMAP` of the text that `MAPtoZS` makes of a map is that map.
pub zs_to_map-Sorted :
    (m : Map Text Text) → Sorted m → AllPlain m → zs_to_map (map_to_zs m) ≡ some (ok m)
unfolding zs_to_map
zs_to_map-Sorted m s p = read_map-Sorted (length (map_to_zs m)) m [] s p tt (omega arith)
