-- ===== src/Assets/Adds.antt =====
-- What `addAsset` (src/agent.cpp) does to the list and the map of the assets.
use cppagent.Base.{
  ℕ, subst, suc, ◌<◌, ◌≡◌, refl, true, false, ◌||◌, Option, none, some, List, [], ◌∷◌, ◌++◌, Text,
  Map, member, lookup, insert, erase, length, text_eq, text_eq_iff, text_eq_refl, leb, arith,
  lookup-insert, lookup-erase, sym, ap, ◌∙◌, Bool-cases, inl, inr, length-append, is_some, is_empty,
  ℤ,
}
use cppagent.Assets.{
  Asset, Assets, Outcome, touch, pointer, deref, remove_from, drop_oldest, evict, put, count_asset,
  subtract_int, erase_keys, add_object, add_parsed, add_asset, time_of, add_int,
}
use cppagent.Assets.IsStored.{
  IsStored, AreDistinct, member-append, append-AreDistinct, get_elem?-append_left,
  get_elem?-append_end, listed_without, touch-IsStored, member-none, member-remove_from,
}

-- What making room does: one place at least is free, no asset is moved, and no id is new.
abbrev IsEvicted : Assets → Option Assets → Type 0
IsEvicted s none = ⊥
IsEvicted s (some s') =
    IsStored s'
    × (length s'.assets < s'.max_assets)
    × ((j : Text) → member j s.assets ≡ false → member j s'.assets ≡ false)

drop_front :
    (s : Assets) (front : Text) (rest : List Text) (counts : Map ℤ) (indices : Map (Map ℕ))
    → IsStored s
    → s.assets ≡ front ∷ rest
    → IsStored (record s {
      asset_counts = counts;
      assets = rest;
      asset_map = erase front s.asset_map;
      asset_indices = indices;
    })
unfolding AreDistinct
drop_front s front rest counts indices v e =
    let d : AreDistinct (front ∷ rest) = rw e at v.distinct in
    record {
      capacity = v.capacity;
      bounded =
          let l : length s.assets ≡ suc (length rest) = ap length e in omega (arith, v.bounded, l);
      distinct = d.1;
      backed = λ j h.
          let m : member j s.assets ≡ true = rw e (ground (arith, h)) in
          let (p, q) = v.backed j m in
          (p, ground (arith, lookup-erase front j s.asset_map, text_eq_iff front j, q, h, d.0));
      pointed = λ j p q.
          v.pointed j p (ground (arith, lookup-erase front j s.asset_map, text_eq_iff front j, q));
    }

deref-front :
    (s : Assets) (front : Text) (rest : List Text)
    → IsStored s
    → s.assets ≡ front ∷ rest
    → (a : Asset) × (deref front s ≡ some a) × (a.asset_id ≡ front)
unfolding deref pointer
deref-front s front rest v e =
    let m : member front s.assets ≡ true = rw e (ground (arith, text_eq_refl front)) in
    let (p, q) = v.backed front m in
    let (a, g, i) = v.pointed front p q in (a, rw (q, deref, pointer) g, i)

drop_oldest-IsEvicted :
    (s : Assets) (ids : List Text)
    → IsStored s
    → s.assets ≡ ids
    → leb s.max_assets (length s.assets) ≡ true
    → IsEvicted s (drop_oldest ids s)
unfolding drop_oldest
drop_oldest-IsEvicted s [] v e h =
    let l : length s.assets ≡ 0 = ap length e in absurd (ground (arith, v.capacity))
drop_oldest-IsEvicted s (front ∷ rest) v e h =
    let (a, d, i) = deref-front s front rest v e in
    let l : length s.assets ≡ suc (length rest) = ap length e in
    rw (d, drop_oldest)
      (
        rw i (
            drop_front s front rest (count_asset subtract_int a.type s.asset_counts)
              (erase_keys a.keys s.asset_indices) v e),
        ground (arith, v.bounded),
        λ j m. let k : member j (front ∷ rest) ≡ false = rw e at m in ground arith,
      )

evict-IsEvicted : (s : Assets) → IsStored s → IsEvicted s (evict s)
unfolding evict
evict-IsEvicted s v = elim (Bool-cases (leb s.max_assets (length s.assets))) [
  | inr h ↦ rw h (v, ground arith, λ j m. m)
  | inl h ↦ rw h (drop_oldest-IsEvicted s s.assets v refl h)
]

put-IsStored :
    (a : Asset) (id : Text) (s : Assets)
    → IsStored s
    → length s.assets < s.max_assets
    → (a.removed ≡ false → member id s.assets ≡ false)
    → a.asset_id ≡ id
    → IsStored (put a id s)
unfolding put
put-IsStored a id s v lt new same = record {
  capacity = v.capacity;
  bounded = elim (Bool-cases a.removed) [
    | inl r ↦ rw r (omega arith)
    | inr r ↦ rw r (omega (arith, length-append s.assets (id ∷ [])))
  ];
  distinct = elim (Bool-cases a.removed) [
    | inl r ↦ rw r v.distinct
    | inr r ↦ rw r (append-AreDistinct id s.assets v.distinct (new r))
  ];
  backed = λ j h. elim (Bool-cases (text_eq id j)) [
    | inl e ↦
        (length s.objects, ground (arith, lookup-insert id j (some (length s.objects)) s.asset_map))
    | inr e ↦
        let m : member j s.assets ≡ true = ground (arith, member-append j id s.assets, h, e) in
        let (p, q) = v.backed j m in
        (p, ground (arith, lookup-insert id j (some (length s.objects)) s.asset_map, q, e))
  ];
  pointed = λ j p q. elim (Bool-cases (text_eq id j)) [
    | inl e ↦
        let w : p ≡ length s.objects =
          ground (arith, lookup-insert id j (some (length s.objects)) s.asset_map) in
        let k : id ≡ j = (text_eq_iff id j).0 e in
        (a, rw w (get_elem?-append_end s.objects a), same ∙ k)
    | inr e ↦
        let old : lookup j s.asset_map ≡ some (some p) =
          ground (arith, lookup-insert id j (some (length s.objects)) s.asset_map) in
        let (x, g, i) = v.pointed j p old in (x, get_elem?-append_left s.objects (a ∷ []) p x g, i)
  ];
}

deref-put : (a : Asset) (id : Text) (s : Assets) → deref id (put a id s) ≡ some a
unfolding deref pointer put
deref-put a id s =
    let e : lookup id (insert id (some (length s.objects)) s.asset_map)
        ≡ some (some (length s.objects)) =
      ground (arith, lookup-insert id id (some (length s.objects)) s.asset_map, text_eq_refl id) in
    rw (e, deref, pointer) (get_elem?-append_end s.objects a)

assets-put :
    (a : Asset) (id : Text) (s : Assets)
    → a.asset_id ≡ id
    → a.removed ≡ false
    → (put a id s).assets ≡ s.assets ++ (a.asset_id ∷ [])
unfolding put
assets-put a id s e r = rw (r, put, e) refl

-- The outcome of adding the asset `a`: the invariant holds, and if the asset was taken, its id leads
-- to it, and it is the newest in the list unless it is a removed one.
abbrev pub IsAdded : Asset → Outcome → Type 0
IsAdded a none = ⊥
IsAdded a (some (taken, s, events)) =
    IsStored s
    × (taken ≡ true
        → (deref a.asset_id s ≡ some a)
          × (a.removed ≡ false → (older : List Text) × (s.assets ≡ older ++ (a.asset_id ∷ []))))

add_object-IsAdded :
    (a : Asset) (id type time : Text) (s : Assets)
    → IsStored s
    → (a.removed ≡ false → member id s.assets ≡ false)
    → a.asset_id ≡ id
    → IsAdded a (add_object a id type time s)
unfolding add_object
add_object-IsAdded a id type time s v new same = go (evict s) refl (evict-IsEvicted s v)
  where
    go : (r : Option Assets) → evict s ≡ r → IsEvicted s r → IsAdded a (add_object a id type time s)
    go none e h = absurd h
    go (some s') e h =
        rw (e, add_object)
          (
            put-IsStored a id s' h.0 h.1 (λ r. h.2 id (new r)) same,
            λ t. (
              subst (λ i. deref i (put a id s') ≡ some a) (sym same) (deref-put a id s'),
              λ r. (s'.assets, assets-put a id s' same r),
            ),
          )

add_parsed-IsAdded :
    (a : Asset) (id type time : Text) (s : Assets)
    → IsStored s
    → a.asset_id ≡ id
    → IsAdded a (add_parsed a id type time s)
unfolding add_parsed
add_parsed-IsAdded a id type time s v same = elim (Bool-cases a.removed) [
  | inl r ↦ simp r (elim (Bool-cases (is_some (pointer id s))) [
    | inl p ↦ rw p (add_object-IsAdded a id type time s v (λ n. ground arith) same)
    | inr p ↦ rw p (touch-IsStored s id v, λ t. ground arith)
  ])
  | inr r ↦ simp r (elim (Bool-cases (is_some (pointer id s))) [
    | inl p ↦ rw p (
        add_object-IsAdded a id type time (record s { assets = remove_from id s.assets })
          (listed_without s id v)
          (λ n. ground (arith, member-remove_from id id s.assets, text_eq_refl id)) same)
    | inr p ↦ rw p (
        add_object-IsAdded a id type time
          (record (touch id s) { asset_counts = count_asset add_int type s.asset_counts })
          (counted (touch id s) (count_asset add_int type s.asset_counts) (touch-IsStored s id v))
          (λ n. absent p) same)
  ])
]
  where
    counted : (t : Assets) (c : Map ℤ) → IsStored t → IsStored (record t { asset_counts = c })
    counted t c w = record {
      capacity = w.capacity;
      bounded = w.bounded;
      distinct = w.distinct;
      backed = w.backed;
      pointed = w.pointed;
    }

    assets-touch : (touch id s).assets ≡ s.assets
    assets-touch = unfold touch in ground arith

    absent : is_some (pointer id s) ≡ false → member id (touch id s).assets ≡ false
    absent p = rw assets-touch (member-none s id v (ground arith))

-- `addAsset` never reads through a null pointer, and the invariant holds behind it, whatever the parser
-- makes of the text: no more assets than the capacity are listed, each one once and with its node in
-- the map. If it succeeds, the id leads to the parsed asset with the id, the time and the device, and
-- the asset is the newest in the list unless it is one that is removed.
pub add_asset-IsAdded :
    (parse_asset : Text → Text → Text → Option Asset)
    (now device_uuid id asset type input_time : Text) (s : Assets) (a : Asset)
    → IsStored s
    → parse_asset id type asset ≡ some a
    → IsAdded
        (record a { asset_id = id; timestamp = time_of now input_time; device_uuid = device_uuid })
        (add_asset parse_asset now device_uuid id asset type input_time s)
unfolding add_asset
add_asset-IsAdded parse_asset now device_uuid id asset type input_time s a v e =
    elim (Bool-cases (is_empty type || (is_empty asset || is_empty id))) [
      | inl h ↦ rw h (v, λ t. ground arith)
      | inr h ↦
          rw (h, e, add_asset)
            (add_parsed-IsAdded
              (record a {
                asset_id = id;
                timestamp = time_of now input_time;
                device_uuid = device_uuid;
              })
              id type (time_of now input_time) s v refl)
    ]
