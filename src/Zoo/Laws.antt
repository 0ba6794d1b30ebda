-- ===== src/Zoo/Laws.antt =====
-- The wrapper of src/zookeeper/zookeeper.tpp, as the servers use it.
use rdma_migration_system.Prelude.{
  ℕ, zero, suc, ◌≤◌, ◌≡◌, refl, ap, sym, ◌∙◌, ◌⊎◌, inl, inr, arith, Option, some, none, Bool, true,
  false, [], ◌∷◌,
}
use rdma_migration_system.Prelude.Tests.{Option-cases}
use rdma_migration_system.Prelude.Lists.{length}
use rdma_migration_system.Records.{c_str}
use rdma_migration_system.Records.Order.{Text}
use rdma_migration_system.Registry.{
  buflen, Storable, Elsewhere, Wrote, Created, Removed, ZooKeeper, version_of,
}
use rdma_migration_system.Registry.Texts.{c_str-NoZero}
use rdma_migration_system.Zoo.{
  take, Node, NodeWrote, NodeCreated, NodeRemoved, node_version, ZooClient, filled, get, set,
  create, remove, exists,
}

take_all : (n : ℕ) (s : Text) → length s ≤ n → take n s ≡ s
take_all n [] h = refl
take_all zero (c ∷ cs) h = absurd (omega (arith, h))
take_all (suc n) (c ∷ cs) h = ap (λ l. c ∷ l) (take_all n cs (omega (arith, h)))

-- Whether a call that gives a name on success succeeded.
abbrev pub is_some : Option Text → Bool
is_some none = false
is_some (some name) = true

-- What a read shows of what is in a node.
abbrev shown : Option Node → Option (Text × ℕ)
shown none = none
shown (some (none, v)) = some (filled none, v)
shown (some (some bytes, v)) = some (filled (some (take buflen bytes)), v)

module _ {Z : Type 0} (zh : ZooClient Z) where
  get-shown : (z : Z) (path : Text) → get zh z path ≡ shown (zh.node z path)
  unfolding get
  get-shown z path = elim (Option-cases (zh.node z path)) [
    | inl gone ↦ rw (zh.zoo_get_node z path buflen, gone, get) refl
    | inr ((none, v), there) ↦ rw (zh.zoo_get_node z path buflen, there, get) refl
    | inr ((some bytes, v), there) ↦ rw (zh.zoo_get_node z path buflen, there, get) refl
  ]

  get-Elsewhere :
      (z z' : Z) (path : Text) → Elsewhere zh.node path z z' → Elsewhere (get zh) path z z'
  get-Elsewhere z z' path others other apart =
      get-shown z' other ∙ (ap (λ n. shown n) (others other apart) ∙ sym (get-shown z other))

  shown_old : (o : Option Text) (v : ℕ) → (old : Text) × (shown (some (o, v)) ≡ some (old, v))
  shown_old none v = (filled none, refl)
  shown_old (some bytes) v = (filled (some (take buflen bytes)), refl)

  get_old :
      (z : Z) (path : Text) (o : Option Text) (v : ℕ)
      → zh.node z path ≡ some (o, v)
      → (old : Text) × (get zh z path ≡ some (old, v))
  get_old z path o v e =
      let (old, same) = shown_old o v in (old, get-shown z path ∙ (ap (λ n. shown n) e ∙ same))

  get-Storable :
      (z : Z) (path bytes : Text) (v : ℕ)
      → zh.node z path ≡ some (some bytes, v)
      → Storable bytes
      → get zh z path ≡ some (bytes, v)
  unfolding filled
  get-Storable z path bytes v e (room, nz) =
      get-shown z path
      ∙ (ap (λ n. shown n) e
          ∙ ap (λ t. some (t, v)) (ap c_str (take_all buflen bytes room) ∙ c_str-NoZero bytes nz))

  get_missing : (z : Z) (path : Text) → zh.node z path ≡ none → get zh z path ≡ none
  get_missing z path e = get-shown z path ∙ ap (λ n. shown n) e

  exists_version : (o : Option Node) → node_version o ≡ version_of (shown o)
  exists_version none = refl
  exists_version (some (none, v)) = refl
  exists_version (some (some bytes, v)) = refl

  pub exists_lem : (z : Z) (path : Text) → exists zh z path ≡ version_of (get zh z path)
  unfolding exists
  exists_lem z path =
      zh.zoo_exists_node z path
      ∙ (exists_version (zh.node z path) ∙ ap version_of (sym (get-shown z path)))

  Wrote-node :
      (z z' : Z) (path text : Text) (version : ℕ)
      → NodeWrote zh.node path text version z z'
      → Wrote (get zh) path text version z z'
  Wrote-node z z' path text version ((o, before), (w, newer, after), others) = (
    get_old z path o version before,
    (w, newer, λ fits. get-Storable z' path text w after fits),
    get-Elsewhere z z' path others,
  )

  Created-node :
      (z z' : Z) (path text : Text)
      → NodeCreated zh.node path text z z'
      → Created (get zh) path text z z'
  Created-node z z' path text (free, (w, after), others) = (
    get_missing z path free,
    (w, λ fits. get-Storable z' path text w after fits),
    get-Elsewhere z z' path others,
  )

  Removed-node :
      (z z' : Z) (path : Text) (version : ℕ)
      → NodeRemoved zh.node path version z z'
      → Removed (get zh) path version z z'
  Removed-node z z' path version ((o, before), after, others) =
      (get_old z path o version before, get_missing z' path after, get-Elsewhere z z' path others)

  -- A call that failed and changed nothing, or was done.
  either : {A B C : Type 0} → (B → C) → A ⊎ B → A ⊎ C
  either f (inl a) = inl a
  either f (inr b) = inr (f b)

  pub set_lem :
      (z : Z) (path text : Text) (version : ℕ)
      → (set zh z path text version).1 ≡ true
      → Wrote (get zh) path text version z (set zh z path text version).0
  unfolding set
  set_lem z path text version done =
      Wrote-node z _ path text version (zh.zoo_set_ok z path text version done)

  pub set_fails :
      (z : Z) (path text : Text) (version : ℕ)
      → (set zh z path text version).1 ≡ false
      → ((set zh z path text version).0 ≡ z)
        ⊎ Wrote (get zh) path text version z (set zh z path text version).0
  unfolding set
  set_fails z path text version e =
      either (λ n. Wrote-node z _ path text version n) (zh.zoo_set_fails z path text version e)

  create_some :
      (z : Z) (path text : Text)
      → is_some (create zh z path text).1 ≡ true
      → (name : Text) × ((zh.zoo_create z path text).1 ≡ some name)
  unfolding create
  create_some z path text e = elim (Option-cases (zh.zoo_create z path text).1) [
    | inl failed ↦ absurd (ground (arith, e, failed))
    | inr (name, done) ↦ (name, done)
  ]

  create_none :
      (z : Z) (path text : Text)
      → is_some (create zh z path text).1 ≡ false
      → (zh.zoo_create z path text).1 ≡ none
  unfolding create
  create_none z path text e = elim (Option-cases (zh.zoo_create z path text).1) [
    | inl failed ↦ failed
    | inr (name, done) ↦ absurd (ground (arith, e, done))
  ]

  pub create_lem :
      (z : Z) (path text : Text)
      → is_some (create zh z path text).1 ≡ true
      → Created (get zh) path text z (create zh z path text).0
  unfolding create
  create_lem z path text e =
      let (name, done) = create_some z path text e in
      Created-node z _ path text (zh.zoo_create_ok z path text name done)

  pub create_fails :
      (z : Z) (path text : Text)
      → is_some (create zh z path text).1 ≡ false
      → ((create zh z path text).0 ≡ z) ⊎ Created (get zh) path text z (create zh z path text).0
  unfolding create
  create_fails z path text e =
      either (λ n. Created-node z _ path text n)
        (zh.zoo_create_fails z path text (create_none z path text e))

  pub remove_lem :
      (z : Z) (path : Text) (version : ℕ)
      → (remove zh z path version).1 ≡ true
      → Removed (get zh) path version z (remove zh z path version).0
  unfolding remove
  remove_lem z path version done =
      Removed-node z _ path version (zh.zoo_delete_ok z path version done)

  pub remove_fails :
      (z : Z) (path : Text) (version : ℕ)
      → (remove zh z path version).1 ≡ false
      → ((remove zh z path version).0 ≡ z)
        ⊎ Removed (get zh) path version z (remove zh z path version).0
  unfolding remove
  remove_fails z path version e =
      either (λ n. Removed-node z _ path version n) (zh.zoo_delete_fails z path version e)

  -- The client that the servers use.
  abbrev pub zookeeper : ZooKeeper Z
  zookeeper = record {
    get = λ z path. get zh z path;
    set = λ z path text version. set zh z path text version;
    create = λ z path text. ((create zh z path text).0, is_some (create zh z path text).1);
    remove = λ z path version. remove zh z path version;
    exists = λ z path. exists zh z path;
    exists_get = exists_lem;
    set_taken = set_lem;
    set_failed = set_fails;
    create_taken = create_lem;
    create_failed = create_fails;
    remove_taken = remove_lem;
    remove_failed = remove_fails;
  }
