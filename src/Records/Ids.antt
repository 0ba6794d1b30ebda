-- ===== src/Records/Ids.antt =====
-- `ZStoProcessList` and `ProcessListtoZS` of include/utils/miscutils.hpp, one after the other.
use rdma_migration_system.Prelude.{
  ℕ, zero, suc, ◌≤◌, ◌<◌, ◌≡◌, refl, ◌∙◌, ap, sym, arith, some, List, [], ◌∷◌, ◌++◌,
}
use rdma_migration_system.Prelude.Lists.{
  length, length-append, append_assoc, append_one, append_none,
}
use rdma_migration_system.Prelude.Results.{ok}
use rdma_migration_system.Prelude.Integers.{ℤ, IsLong}
use rdma_migration_system.Records.{
  comma, c_str, take_field, read_list, zs_to_process_list, process_list_to_zs,
}
use rdma_migration_system.Records.Order.{Text}
use rdma_migration_system.Records.Signed.{int_to_string, atol, atol-int_to_string}
use rdma_migration_system.Records.Digits.{int_to_string-Plain}
use rdma_migration_system.Records.Fields.{c_str-Plain, take_field-Plain}

abbrev pub AllLong : List ℤ → Type 0
AllLong [] = Unit {0}
AllLong (id ∷ ids) = IsLong id × AllLong ids

-- A round on a text that is not empty.
read_list-step :
    (fuel : ℕ) (s id rest : Text) (res : List ℤ)
    → 0 < length s
    → take_field s ≡ ok (id, rest)
    → read_list (suc fuel) s res ≡ read_list fuel rest (res ++ (atol (c_str id) ∷ []))
unfolding read_list
read_list-step fuel [] id rest res some_text e = elim some_text [ ]
read_list-step fuel (c ∷ cs) id rest res some_text e = rw (e, read_list) refl

read_list-AllLong :
    (fuel : ℕ) (ids res : List ℤ)
    → AllLong ids
    → length (process_list_to_zs ids) ≤ fuel
    → read_list fuel (process_list_to_zs ids) res ≡ some (ok (res ++ ids))
unfolding process_list_to_zs read_list
read_list-AllLong fuel [] res long enough = ap (λ d. some (ok d)) (sym (append_none res))
read_list-AllLong zero (id ∷ ids) res (l, long) enough =
    absurd
      (omega (arith, enough, length-append (int_to_string id) (comma ∷ process_list_to_zs ids)))
read_list-AllLong (suc fuel) (id ∷ ids) res (l, long) enough =
    let rest = process_list_to_zs ids in
    let size = length-append (int_to_string id) (comma ∷ rest) in
    let plain = int_to_string-Plain id in
    let read : atol (c_str (int_to_string id)) ≡ id =
      ap atol (c_str-Plain (int_to_string id) plain) ∙ atol-int_to_string id l in
    read_list-step fuel (process_list_to_zs (id ∷ ids)) (int_to_string id) rest res
      (omega (arith, size)) (take_field-Plain (int_to_string id) rest plain)
    ∙ (ap (λ i. read_list fuel rest (res ++ (i ∷ []))) read
        ∙ (read_list-AllLong fuel ids (res ++ (id ∷ [])) long (omega (arith, enough, size))
            ∙ ap (λ d. some (ok d)) (append_one res ids id)))

-- `ZStoProcessList` reads the ids that `ProcessListtoZS` wrote, in their order.
pub zs_to_process_list-process_list_to_zs :
    (ids : List ℤ) → AllLong ids → zs_to_process_list (process_list_to_zs ids) ≡ some (ok ids)
unfolding zs_to_process_list
zs_to_process_list-process_list_to_zs ids long =
    read_list-AllLong (length (process_list_to_zs ids)) ids [] long (omega arith)

-- The text of a list that grows at its end.
pub process_list_to_zs-append :
    (xs ys : List ℤ)
    → process_list_to_zs (xs ++ ys) ≡ process_list_to_zs xs ++ process_list_to_zs ys
unfolding process_list_to_zs
process_list_to_zs-append [] ys = refl
process_list_to_zs-append (x ∷ xs) ys =
    ap (λ s. int_to_string x ++ (comma ∷ s)) (process_list_to_zs-append xs ys)
    ∙ sym (append_assoc (int_to_string x) (comma ∷ process_list_to_zs xs) (process_list_to_zs ys))
