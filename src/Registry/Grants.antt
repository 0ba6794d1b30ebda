-- ===== src/Registry/Grants.antt =====
-- Any number of servers that call `getAllocationAddress` at once, each of its reads and writes being
-- one step.
use rdma_migration_system.Prelude.{
  ℕ, ◌+◌, ◌≤◌, ◌<◌, ◌≡◌, refl, ap, ◌∙◌, inl, inr, arith, some, true, false, List, [], ◌∷◌, ◌++◌,
}
use rdma_migration_system.Prelude.Results.{ok, Result-cases}
use rdma_migration_system.Prelude.Word.{word_mod, add64}
use rdma_migration_system.Records.Order.{Text}
use rdma_migration_system.Records.Decimal.{to_string, stoul, stoul-to_string}
use rdma_migration_system.Registry.Texts.{number-Storable}
use rdma_migration_system.Registry.{
  ZooKeeper, Wrote, Pending, allocator_node, read_allocator, write_allocator,
}

module _ {Z : Type 0} (zk : ZooKeeper Z) where
  -- The service, the calls that have read and not yet written, and the blocks that calls returned,
  -- the newest first, each as an address and a size, and the sum of the sizes of all writes so far.
  pub record System : Type 0 where
    pub zoo : Z
    pub pending : List Pending
    pub granted : List (ℕ × ℕ)
    pub tried : ℕ

  -- A call reads; a call writes and returns; a call's write is not confirmed, and it starts again.
  pub data Step : System → System → Type 0 where
    reads :
        (s : System) (addr version size : ℕ)
        → read_allocator zk s.zoo ≡ ok (addr, version)
        → Step s (record s {
          pending = record { addr = addr; version = version; size = size } ∷ s.pending;
        })
    takes :
        (s : System) (before after : List Pending) (p : Pending)
        → s.pending ≡ before ++ (p ∷ after)
        → (write_allocator zk s.zoo p).1 ≡ true
        → Step s (record {
          zoo = (write_allocator zk s.zoo p).0;
          pending = before ++ after;
          granted = (p.addr, p.size) ∷ s.granted;
          tried = s.tried + p.size;
        })
    retries :
        (s : System) (before after : List Pending) (p : Pending)
        → s.pending ≡ before ++ (p ∷ after)
        → (write_allocator zk s.zoo p).1 ≡ false
        → Step s (record s {
          zoo = (write_allocator zk s.zoo p).0;
          pending = before ++ after;
          tried = s.tried + p.size;
        })

  pub data Steps : System → System → Type 0 where
    stay : (s : System) → Steps s s
    then_step : (s t u : System) → Steps s t → Step t u → Steps s u

  -- Not newer than the version `v`, and with the address `a` if of that version.
  abbrev Known : ℕ → ℕ → Pending → Type 0
  Known a v p = (p.version ≤ v) × (p.version ≡ v → p.addr ≡ a)

  abbrev AllKnown : ℕ → ℕ → List Pending → Type 0
  AllKnown a v [] = Unit {0}
  AllKnown a v (p ∷ ps) = Known a v p × AllKnown a v ps

  -- Each block starts where all the older ones have ended, and the newest ends at or before `top`.
  abbrev pub Stacked : ℕ → ℕ → List (ℕ × ℕ) → Type 0
  Stacked low top [] = low ≤ top
  Stacked low top ((addr, size) ∷ bs) = (addr + size ≤ top) × Stacked low addr bs

  record Sound (low : ℕ) (s : System) : Type 0 where
    addr : ℕ
    version : ℕ
    current : read_allocator zk s.zoo ≡ ok (addr, version)
    known : AllKnown addr version s.pending
    stacked : Stacked low addr s.granted
    within : addr ≤ low + s.tried

  Stacked-higher :
      (low top top' : ℕ) (bs : List (ℕ × ℕ)) → top ≤ top' → Stacked low top bs → Stacked low top' bs
  Stacked-higher low top top' [] up h = omega (arith, up, h)
  Stacked-higher low top top' ((addr, size) ∷ bs) up (h, rest) = (omega (arith, up, h), rest)

  AllKnown-part :
      (a v : ℕ) (before after : List Pending) (p : Pending)
      → AllKnown a v (before ++ (p ∷ after))
      → Known a v p × AllKnown a v (before ++ after)
  AllKnown-part a v [] after p (known, rest) = (known, rest)
  AllKnown-part a v (q ∷ before) after p (known, rest) =
      let (here, others) = AllKnown-part a v before after p rest in (here, (known, others))

  AllKnown-newer : (a b v w : ℕ) (ps : List Pending) → v < w → AllKnown a v ps → AllKnown b w ps
  AllKnown-newer a b v w [] newer all = tt
  AllKnown-newer a b v w (p ∷ ps) newer ((low, _), all) = (
    (omega (arith, low), λ e. absurd (omega (arith, low, e))),
    AllKnown-newer a b v w ps newer all,
  )

  read_version :
      (z : Z) (a v u : ℕ) (old : Text)
      → read_allocator zk z ≡ ok (a, v)
      → zk.get z allocator_node ≡ some (old, u)
      → u ≡ v
  unfolding read_allocator
  read_version z a v u old current before = elim (Result-cases (stoul old)) [
    | inl (res, ran) ↦ ground arith
    | inr (fault, ran) ↦ ground arith
  ]

  read_written :
      (z : Z) (n w : ℕ)
      → n < word_mod
      → zk.get z allocator_node ≡ some (to_string n, w)
      → read_allocator zk z ≡ ok (n, w)
  unfolding read_allocator
  read_written z n w room after = rw (after, stoul-to_string n room, read_allocator) refl

  -- After a write that was done, the address that was read was the current one, and the new one
  -- lies behind the block.
  written :
      (z z' : Z) (p : Pending) (a v : ℕ)
      → read_allocator zk z ≡ ok (a, v)
      → Known a v p
      → a + p.size < word_mod
      → Wrote zk.get allocator_node (to_string (add64 p.addr p.size)) p.version z z'
      → (p.addr ≡ a) × ((w : ℕ) × (v < w) × (read_allocator zk z' ≡ ok (a + p.size, w)))
  written z z' p a v current (_, at_version) room ((old, before), (w, newer, after), _) =
      let same : p.version ≡ v = read_version z a v p.version old current before in
      let here : p.addr ≡ a = at_version same in
      let sum : add64 p.addr p.size ≡ a + p.size = omega (arith, room, here) in
      (
        here,
        (
          w,
          rw (← same) newer,
          read_written z' (a + p.size) w room
              (after (number-Storable _ (omega arith)) ∙ ap (λ n. some (to_string n, w)) sum),
        ),
      )

  -- A write that was done, whether its call returns or not.
  Wrote-Sound :
      (low : ℕ) (s : System) (z : Z) (before after : List Pending) (p : Pending)
      (granted : List (ℕ × ℕ))
      → s.pending ≡ before ++ (p ∷ after)
      → low + (s.tried + p.size) < word_mod
      → (h : Sound low s)
      → Wrote zk.get allocator_node (to_string (add64 p.addr p.size)) p.version s.zoo z
      → (p.addr ≡ h.addr → Stacked low (h.addr + p.size) granted)
      → Sound low (record {
        zoo = z;
        pending = before ++ after;
        granted = granted;
        tried = s.tried + p.size;
      })
  Wrote-Sound low s z before after p granted e room h wrote stacks =
      let (here, others) = AllKnown-part h.addr h.version before after p (rw (← e) h.known) in
      let (same, (w, newer, current)) =
        written s.zoo z p h.addr h.version h.current here (omega (arith, room, h.within)) wrote in
      record {
        addr = h.addr + p.size;
        version = w;
        current = current;
        known = AllKnown-newer h.addr (h.addr + p.size) h.version w (before ++ after) newer others;
        stacked = stacks same;
        within = omega (arith, h.within);
      }

  -- The block that was taken starts where the older ones end.
  Step-Sound :
      (low : ℕ) (s t : System) → Step s t → low + t.tried < word_mod → Sound low s → Sound low t
  unfolding write_allocator
  Step-Sound low _ _ (reads s addr version size ran) room h =
      let of_version : version ≡ h.version = ground (arith, ran, h.current) in
      let of_addr : addr ≡ h.addr = ground (arith, ran, h.current) in
      record {
        addr = h.addr;
        version = h.version;
        current = h.current;
        known = ((omega (arith, of_version), λ _. of_addr), h.known);
        stacked = h.stacked;
        within = h.within;
      }
  Step-Sound low _ _ (takes s before after p e done) room h =
      Wrote-Sound low s _ before after p ((p.addr, p.size) ∷ s.granted) e room h
        (zk.set_taken s.zoo allocator_node (to_string (add64 p.addr p.size)) p.version done)
        (λ same. (omega (arith, same), rw same h.stacked))
  Step-Sound low _ _ (retries s before after p e failed) room h =
      elim (zk.set_failed s.zoo allocator_node (to_string (add64 p.addr p.size)) p.version failed) [
        | inr wrote ↦
            Wrote-Sound low s _ before after p s.granted e room h wrote (λ same.
              Stacked-higher low h.addr (h.addr + p.size) s.granted (omega arith) h.stacked)
        | inl same ↦
            let (_, others) = AllKnown-part h.addr h.version before after p (rw (← e) h.known) in
            record {
              addr = h.addr;
              version = h.version;
              current = ap (read_allocator zk) same ∙ h.current;
              known = others;
              stacked = h.stacked;
              within = omega (arith, h.within);
            }
      ]

  Step-tried : (s t : System) → Step s t → s.tried ≤ t.tried
  Step-tried _ _ (reads s addr version size ran) = omega arith
  Step-tried _ _ (takes s before after p e done) = omega arith
  Step-tried _ _ (retries s before after p e failed) = omega arith

  Steps-Sound :
      (low : ℕ) (s t : System) → Steps s t → low + t.tried < word_mod → Sound low s → Sound low t
  Steps-Sound low _ _ (stay s) room h = h
  Steps-Sound low _ _ (then_step s t u before last) room h =
      Step-Sound low t u last room
        (Steps-Sound low s t before (omega (arith, room, Step-tried t u last)) h)

  -- However the calls of any number of servers interleave, from a state where nobody has begun, the
  -- blocks that they return lie behind each other, from the address that was kept at first up to
  -- the one that is kept now: no two of them have a common address. The address at first and the
  -- sizes of all writes that were tried sum up to less than 2 ^ 64, so that no address wraps; a write
  -- that is not confirmed may have been done.
  pub Steps-Stacked :
      (z : Z) (s : System) (low version : ℕ)
      → read_allocator zk z ≡ ok (low, version)
      → Steps (record { zoo = z; pending = []; granted = []; tried = 0 }) s
      → low + s.tried < word_mod
      → (top : ℕ) × (w : ℕ) × (read_allocator zk s.zoo ≡ ok (top, w)) × Stacked low top s.granted
  Steps-Stacked z s low version first steps room =
      let h = Steps-Sound low _ s steps room (record {
        addr = low;
        version = version;
        current = first;
        known = tt;
        stacked = omega arith;
        within = omega arith;
      }) in
      (h.addr, h.version, h.current, h.stacked)
