-- ===== src/CacheMgr/Allocating.antt =====
-- src/cache.cpp: what an allocated item is, and whether its block holds what it is for.
use xixi.CacheMgr.State.{Key, Mgr}
use xixi.CacheMgr.Classes.{HasClasses, IsClassOf, get_class_id, get_class_id_lem}
use xixi.CacheMgr.Items.{malloc_item, obtain, init_item, init_got, alloc_in, do_alloc}
use xixi.CacheMgr.Entries.{Unlinked, All-map}
use xixi.CacheMgr.View.{Keeps, away-Keeps, stored-Keeps}
use xixi.CacheMgr.Linking.{IsReady}
use xixi.Prelude.{
  ℕ, ◌+◌, ◌%◌, ◌^◌, ◌≤◌, ◌<◌, ◌≡◌, refl, ◌≢◌, ◌⊎◌, inl, inr, false, Option, none, some, List, [],
  ◌∷◌, arith, leb, ◌==◌, Bool-cases, All, grants,
}

-- Every linked item stands below the next address of `malloc`; no free item is linked, and its block is as large as
-- the class of its list says.
pub record IsHeap (m : Mgr) : Type 0 where
  pub below : All (λ (e : Key × ℕ). e.1 < m.next_addr) m.cache_hash_map
  pub spare :
      (c : ℕ)
      → All
          (λ (a : ℕ). Unlinked a m.cache_hash_map × (m.max_size c ≤ m.block_sizes a))
          (m.free_cache_list c)

-- What a search for a block of a class may change, and what it finds.
record Obtains (m : Mgr) (id : ℕ) (n : Mgr) (a : ℕ) : Type 0 where
  away : Unlinked a m.cache_hash_map
  entries : n.cache_hash_map ≡ m.cache_hash_map
  ids : n.last_cache_id ≡ m.last_cache_id
  size : m.max_size id ≤ n.block_sizes a
  others : (b : ℕ) → a ≢ b → n.items b ≡ m.items b

List-cases {ℓ} :
    {A : Type ℓ} (xs : List A) → (xs ≡ []) ⊎ ((x : A) × (rest : List A) × (xs ≡ x ∷ rest))
List-cases [] = inl refl
List-cases (x ∷ xs) = inr (x, xs, refl)

next-Unlinked : (m : Mgr) → IsHeap m → Unlinked m.next_addr m.cache_hash_map
next-Unlinked m v = All-map m.cache_hash_map (λ e (p : e.1 < m.next_addr). omega arith) v.below

-- Why no block is found: the class has no free item, and there is no memory within the limit.
abbrev pub IsFull : Mgr → ℕ → Type 0
IsFull m id =
    (m.free_cache_list id ≡ [])
    × ((m.mem_limit < (m.mem_used + m.max_size id) % 2 ^ 64) ⊎ (grants m.mallocs ≡ false))

abbrev Got : Mgr → ℕ → Option ℕ × Mgr → Type 0
Got m id (none, n) = Keeps m n × IsFull m id
Got m id (some a, n) = Obtains m id n a

unchanged :
    (m n : Mgr)
    → n.cache_hash_map ≡ m.cache_hash_map
    → n.last_cache_id ≡ m.last_cache_id
    → n.items ≡ m.items
    → Keeps m n
unchanged m n c i f =
    stored-Keeps m n c i (λ b. rw f (record { contents = refl; keys = refl; refs = refl }))

malloc-Got :
    (m : Mgr) (id : ℕ)
    → IsHeap m
    → m.free_cache_list id ≡ []
    → Got m id (malloc_item m (m.max_size id))
unfolding malloc_item
malloc-Got m id v empty = elim (List-cases m.mallocs) [
  | inl e ↦
      rw (e, malloc_item)
        (unchanged (record m { mallocs = [] }) m refl refl refl, (empty, inr refl))
  | inr (answer, rest, e) ↦
      rw (e, malloc_item)
        (elim (Bool-cases answer) [
          | inl t ↦ rw t (record {
            away = next-Unlinked m v;
            entries = refl;
            ids = refl;
            size = ground arith;
            others = λ b h. ground arith;
          })
          | inr f ↦ rw f (
            unchanged (record m { mallocs = false ∷ rest }) (record m { mallocs = rest }) refl refl
                refl,
            (empty, inr refl),
          )
        ])
]

obtain-Got : (m : Mgr) (id : ℕ) → IsHeap m → Got m id (obtain m id)
unfolding obtain
obtain-Got m id v = elim (List-cases (m.free_cache_list id)) [
  | inl e ↦
      rw (e, obtain)
        (elim (Bool-cases (leb ((m.mem_used + m.max_size id) % 2 ^ 64) m.mem_limit)) [
          | inl t ↦ rw t (malloc-Got m id v e)
          | inr f ↦ rw f (unchanged m m refl refl refl, (e, inl (ground (arith, f))))
        ])
  | inr (x, rest, e) ↦
      let spare = rw e at (v.spare id) in
      rw (e, obtain)
        (record {
          away = spare.0.0;
          entries = refl;
          ids = refl;
          size = spare.0.1;
          others = λ b h. refl;
        })
]

-- What the search found does not depend on the class that is remembered.
Got-last :
    (m : Mgr) (id last : ℕ) (r : Option ℕ × Mgr)
    → Got (record m { last_class_id = last }) id r
    → Got m id r
Got-last m id last (none, n) (k, full) =
    (record { entries = k.entries; items = k.items; ids = k.ids }, full)
Got-last m id last (some a, n) g = record {
  away = g.away;
  entries = g.entries;
  ids = g.ids;
  size = g.size;
  others = g.others;
}

-- An item from the allocator: not linked, with one reference, in a block that holds what it is for,
-- and no entry has changed.
pub record Allocates (m : Mgr) (need : ℕ) (n : Mgr) (a : ℕ) : Type 0 where
  pub ready : IsReady n a
  pub kept : Keeps m n
  pub one_reference : (n.items a).ref_count ≡ 1
  pub holds : need ≤ n.block_sizes a

-- Why an allocation fails: no class is large enough, or the least class that is has no room.
abbrev pub Lacks : Mgr → ℕ → Type 0
Lacks m need = (m.max_size m.class_id_max < need) ⊎ ((id : ℕ) × (IsClassOf m need id × IsFull m id))

abbrev pub AllocatesAll : Mgr → ℕ → Option ℕ × Mgr → Type 0
AllocatesAll m need (none, n) = Keeps m n × Lacks m need
AllocatesAll m need (some a, n) = Allocates m need n a

init_got-Allocates :
    (m : Mgr) (r : Option ℕ × Mgr)
    (need id group_id key_length flags expire_time data_size ext_size : ℕ)
    → IsClassOf m need id
    → Got m id r
    → AllocatesAll m need (init_got r id group_id key_length flags expire_time data_size ext_size)
unfolding init_got init_item
init_got-Allocates m (none, n) need id group_id key_length flags expire_time data_size ext_size c
      g =
    (g.0, inr (id, (c, g.1)))
init_got-Allocates m (some a, n) need id group_id key_length flags expire_time data_size ext_size c
      g =
    record {
      ready = record { away = rw g.entries g.away; room = ground arith };
      kept = away-Keeps a m _ g.entries g.ids (λ b d. ground (arith, g.others b d)) g.away;
      one_reference = ground arith;
      holds = omega (arith, g.size, c.fits);
    }

alloc_in-Allocates :
    (m : Mgr) (need id last group_id key_length flags expire_time data_size ext_size : ℕ)
    → IsHeap m
    → (IsClassOf m need id) ⊎ ((id ≡ 0) × (m.max_size m.class_id_max < need))
    → AllocatesAll m need
        (alloc_in m (id, last) group_id key_length flags expire_time data_size ext_size)
unfolding alloc_in
alloc_in-Allocates m need id last group_id key_length flags expire_time data_size ext_size heap
      (inl c) =
    let some_class : (id == 0) ≡ false = ground (arith, c.at_least) in
    let m' = record m { last_class_id = last } in
    rw some_class (
      init_got-Allocates m (obtain m' id) need id group_id key_length flags expire_time data_size
        ext_size c
        (Got-last m id last (obtain m' id)
          (obtain-Got m' id (record { below = heap.below; spare = heap.spare }))))
alloc_in-Allocates m need id last group_id key_length flags expire_time data_size ext_size heap
      (inr (z, large)) =
    rw z (unchanged m (record m { last_class_id = last }) refl refl refl, inl large)

-- An allocation whose size is below 2 ^ 32 gives an item that is not linked, with one reference, in a block that was
-- asked for with at least the size of the item with its key, data and extension. It fails only if no class holds that
-- size, or if the least class that does has no free item and the limit or `malloc` refuses another block. No entry
-- changes.
pub do_alloc-Allocates :
    (m : Mgr) (group_id key_length flags expire_time data_size ext_size : ℕ)
    → HasClasses m
    → IsHeap m
    → 0 < m.sizeof_item
    → m.sizeof_item + key_length + data_size + ext_size < 2 ^ 32
    → AllocatesAll m
        (m.sizeof_item + key_length + data_size + ext_size)
        (do_alloc m group_id key_length flags expire_time data_size ext_size)
unfolding do_alloc
do_alloc-Allocates m group_id key_length flags expire_time data_size ext_size classes heap pos
      fits =
    let need = m.sizeof_item + key_length + data_size + ext_size in
    let whole : need % 2 ^ 32 ≡ need = omega arith in
    let r = get_class_id m need in
    rw whole (elim (get_class_id_lem m need classes (omega arith)) [
      | inl (c, _) ↦
          alloc_in-Allocates m need r.0 r.1 group_id key_length flags expire_time data_size ext_size
            heap (inl c)
      | inr (z, _, large) ↦
          alloc_in-Allocates m need r.0 r.1 group_id key_length flags expire_time data_size ext_size
            heap (inr (z, large))
    ])

-- What an allocation answers and what memory is in use afterwards, without the item's contents.
abbrev pub answer : Option ℕ × Mgr → Option ℕ × ℕ
answer (a, m) = (a, m.mem_used)

init_got_answer :
    (r : Option ℕ × Mgr) (id group_id key_length flags expire_time x y ext_size : ℕ)
    → answer (init_got r id group_id key_length flags expire_time x ext_size)
      ≡ answer (init_got r id group_id key_length flags expire_time y ext_size)
unfolding init_got init_item
init_got_answer (none, n) id group_id key_length flags expire_time x y ext_size = refl
init_got_answer (some a, n) id group_id key_length flags expire_time x y ext_size = refl

alloc_in_answer :
    (m : Mgr) (r : ℕ × ℕ) (group_id key_length flags expire_time x y ext_size : ℕ)
    → answer (alloc_in m r group_id key_length flags expire_time x ext_size)
      ≡ answer (alloc_in m r group_id key_length flags expire_time y ext_size)
unfolding alloc_in
alloc_in_answer m (id, last) group_id key_length flags expire_time x y ext_size =
    let m' = record m { last_class_id = last } in
    elim (Bool-cases (id == 0)) [
      | inl t ↦ rw t
      | inr f ↦
          rw f
            (init_got_answer (obtain m' id) id group_id key_length flags expire_time x y ext_size)
    ]

-- A request that is larger by 2 ^ 32 bytes of data gets the same answer as the smaller one, with as much
-- memory in use afterwards, because the size is cut to 32 bits before a block is looked for.
pub do_alloc_wraps :
    (m : Mgr) (group_id key_length flags expire_time data_size ext_size : ℕ)
    → answer (do_alloc m group_id key_length flags expire_time (data_size + 2 ^ 32) ext_size)
      ≡ answer (do_alloc m group_id key_length flags expire_time data_size ext_size)
unfolding do_alloc
do_alloc_wraps m group_id key_length flags expire_time data_size ext_size =
    let same : (m.sizeof_item + key_length + (data_size + 2 ^ 32) + ext_size) % 2 ^ 32
        ≡ (m.sizeof_item + key_length + data_size + ext_size) % 2 ^ 32 =
      omega arith in
    rw same (
      alloc_in_answer m
        (get_class_id m ((m.sizeof_item + key_length + data_size + ext_size) % 2 ^ 32)) group_id
        key_length flags expire_time (data_size + 2 ^ 32) data_size ext_size)
