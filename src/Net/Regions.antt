-- ===== src/Net/Regions.antt =====
-- `rdma_read` of src/rdma-network/rdma_server_prototype.cpp: which ranges it accepts.
use rdma_migration_system.Prelude.{
  ℕ, ◌+◌, ◌≤◌, ◌<◌, ◌≡◌, arith, ◌⊎◌, inl, inr, Option, some, none, true, List, [], ◌∷◌,
}
use rdma_migration_system.Prelude.Tests.{Bool-cases, Option-cases}
use rdma_migration_system.Prelude.Results.{Result, ok}
use rdma_migration_system.Prelude.Word.{word_mod}
use rdma_migration_system.Prelude.Maps.{Map, lookup, nat_key}
use rdma_migration_system.Net.{
  Connection, Request, Effect, posts_read, sem_waits, semaphore, completion_sem, Verbs,
}
use rdma_migration_system.Net.Posts.{post_rdma_read}
use rdma_migration_system.Net.Reads.{covers, find_key, find_lkey, find_rkey, rdma_read}

-- `len` bytes from `from` on lie in the `length` bytes from `addr` on, as numbers that do not wrap.
abbrev pub Lies : ℕ → ℕ → ℕ → ℕ → Type 0
Lies addr length from len = (addr ≤ from) × (from + len ≤ addr + length)

covers-Lies :
    (addr length from len : ℕ)
    → addr + length < word_mod
    → from + len < word_mod
    → covers addr length from len ≡ true
    → Lies addr length from len
covers-Lies addr length from len fits room e = ground (arith, e, fits, room)

Lies-covers :
    (addr length from len : ℕ)
    → addr + length < word_mod
    → from + len < word_mod
    → Lies addr length from len
    → covers addr length from len ≡ true
Lies-covers addr length from len fits room (low, high) = ground (arith, low, high, fits, room)

-- An entry of the map holds the range and has this key; no entry holds it.
module _ {V : Type 0} (length_of key_of : V → ℕ) where
  -- No region of the map has an end that wraps.
  abbrev pub AllFit : Map ℕ V → Type 0
  AllFit [] = Unit {0}
  AllFit ((addr, r) ∷ rs) = (addr + length_of r < word_mod) × AllFit rs

  abbrev pub Covered : Map ℕ V → ℕ → ℕ → ℕ → Type 0
  Covered [] from len key = ⊥
  Covered ((addr, r) ∷ rs) from len key =
      (Lies addr (length_of r) from len × (key_of r ≡ key)) ⊎ Covered rs from len key

  abbrev pub Uncovered : Map ℕ V → ℕ → ℕ → Type 0
  Uncovered [] from len = Unit {0}
  Uncovered ((addr, r) ∷ rs) from len =
      (Lies addr (length_of r) from len → ⊥) × Uncovered rs from len

  find_key-Covered :
      (m : Map ℕ V) (from len key : ℕ)
      → AllFit m
      → from + len < word_mod
      → find_key length_of key_of m from len ≡ some key
      → Covered m from len key
  unfolding find_key
  find_key-Covered [] from len key fits room e = ground arith
  find_key-Covered ((addr, r) ∷ rs) from len key (fit, fits) room e =
      elim (Bool-cases (covers addr (length_of r) from len)) [
        | inl hit ↦ inl (covers-Lies addr (length_of r) from len fit room hit, ground arith)
        | inr miss ↦ inr (find_key-Covered rs from len key fits room (rw (← e, miss, find_key)))
      ]

  find_key-Uncovered :
      (m : Map ℕ V) (from len : ℕ)
      → AllFit m
      → from + len < word_mod
      → find_key length_of key_of m from len ≡ none
      → Uncovered m from len
  unfolding find_key
  find_key-Uncovered [] from len fits room e = tt
  find_key-Uncovered ((addr, r) ∷ rs) from len (fit, fits) room e =
      elim (Bool-cases (covers addr (length_of r) from len)) [
        | inl hit ↦ absurd (ground arith)
        | inr miss ↦ (
          λ lies.
              absurd (ground (arith, miss, Lies-covers addr (length_of r) from len fit room lies)),
          find_key-Uncovered rs from len fits room (rw (← e, miss, find_key)),
        )
      ]

  pub find_key-entry :
      (m : Map ℕ V) (k : ℕ) (r : V) (from len : ℕ)
      → lookup k m ≡ some r
      → covers k (length_of r) from len ≡ true
      → (key : ℕ) × (find_key length_of key_of m from len ≡ some key)
  unfolding find_key
  find_key-entry [] k r from len e h = ground arith
  find_key-entry ((addr, s) ∷ rs) k r from len e h =
      elim (Bool-cases (covers addr (length_of s) from len)) [
        | inl hit ↦ (key_of s, rw hit)
        | inr miss ↦ rw miss (find_key-entry rs k r from len (ground arith) h)
      ]

module _ (c : Connection) (local_addr remote_addr len : ℕ) where
  abbrev pub LocallyCovered : ℕ → Type 0
  LocallyCovered = Covered (λ r. r.length) (λ r. r.lkey) c.registrations local_addr len

  abbrev pub RemotelyCovered : ℕ → Type 0
  RemotelyCovered = Covered (λ r. r.length) (λ r. r.rkey) c.remote_registrations remote_addr len

  abbrev pub request : ℕ → ℕ → Request
  request lkey rkey = record {
    local_addr = local_addr;
    lkey = lkey;
    remote_addr = remote_addr;
    rkey = rkey;
    length = len;
    notify = semaphore;
  }

  -- What a call of `rdma_read` does: a read under the keys of two registrations that cover its two
  -- ranges, or -1 where no registration covers one of them.
  abbrev pub Reads : Result (Option (List Effect)) → Type 0
  Reads result =
      ((lkey : ℕ) × (rkey : ℕ) × LocallyCovered lkey
        × RemotelyCovered rkey
        × (result ≡ ok (some (posts_read (request lkey rkey) ∷ sem_waits completion_sem ∷ []))))
      ⊎ ((Uncovered (λ r. r.length) (λ r. r.lkey) c.registrations local_addr len
            ⊎ Uncovered (λ r. r.length) (λ r. r.rkey) c.remote_registrations remote_addr len)
          × (result ≡ ok none))

-- Where posting succeeds, `rdma_read` posts one read of the given range under the keys of
-- registrations that hold the whole range on both sides and waits for it, or returns -1, and then no
-- registration holds the whole range on one of the sides. No end of a range or of a registered region
-- wraps.
pub rdma_read-Reads :
    (v : Verbs) (c : Connection) (local_addr remote_addr len : ℕ)
    → v.post_send ≡ true
    → AllFit (λ r. r.length) (λ r. r.lkey) c.registrations
    → AllFit (λ r. r.length) (λ r. r.rkey) c.remote_registrations
    → local_addr + len < word_mod
    → remote_addr + len < word_mod
    → Reads c local_addr remote_addr len (rdma_read v c local_addr remote_addr len)
unfolding rdma_read post_rdma_read find_lkey find_rkey
rdma_read-Reads v c local_addr remote_addr len posts here there room reach =
    elim (Option-cases (find_lkey c.registrations local_addr len)) [
      | inl missing ↦ inr (
        inl (find_key-Uncovered _ _ c.registrations local_addr len here room missing),
        rw (missing, rdma_read),
      )
      | inr (lkey, found) ↦ elim (Option-cases (find_rkey c.remote_registrations remote_addr len)) [
        | inl missing ↦ inr (
          inr (find_key-Uncovered _ _ c.remote_registrations remote_addr len there reach missing),
          rw (found, missing, rdma_read),
        )
        | inr (rkey, reached) ↦ inl (
          lkey,
          rkey,
          find_key-Covered _ _ c.registrations local_addr len lkey here room found,
          find_key-Covered _ _ c.remote_registrations remote_addr len rkey there reach reached,
          rw (found, reached, posts, rdma_read),
        )
      ]
    ]
