-- ===== src/Assets/IsStored.antt =====
-- The invariant of the assets (src/agent.cpp): the list of the newest assets and the map agree.
use cppagent.Base.{
  ℕ, zero, suc, ◌≤◌, ◌<◌, ◌≡◌, refl, true, false, Option, none, some, List, [], ◌∷◌, ◌++◌, Text,
  member, lookup, length, get_elem?, text_eq, text_eq_iff, if◌then◌else◌, arith, lookup-insert,
  Bool-cases, inl, inr,
}
use cppagent.Assets.{Asset, Assets, touch, pointer, remove_from}

-- No id is listed twice.
unfoldable pub AreDistinct : List Text → Type 0
AreDistinct [] = Unit
AreDistinct (id ∷ ids) = (member id ids ≡ false) × AreDistinct ids

-- A pointer in the map under an id is that of an asset with this id.
abbrev pub PointsTo : Text → Option ℕ → List Asset → Type 0
PointsTo id none objects = Unit
PointsTo id (some p) objects = (a : Asset) × (get_elem? objects p ≡ some a) × (a.asset_id ≡ id)

-- The list is not longer than the capacity, lists no id twice, and lists ids that the map has.
pub record IsStored (s : Assets) : Type 0 where
  pub capacity : 0 < s.max_assets
  pub bounded : length s.assets ≤ s.max_assets
  pub distinct : AreDistinct s.assets
  pub backed :
      (id : Text) → member id s.assets ≡ true → (p : ℕ) × (lookup id s.asset_map ≡ some (some p))
  pub pointed :
      (id : Text) (p : ℕ) → lookup id s.asset_map ≡ some (some p) → PointsTo id (some p) s.objects

pub member-remove_from :
    (j id : Text) (ids : List Text)
    → member j (remove_from id ids) ≡ (if text_eq id j then false else member j ids)
unfolding remove_from
member-remove_from j id [] = ground arith
member-remove_from j id (k ∷ ids) =
    ground (arith, text_eq_iff k id, text_eq_iff k j, text_eq_iff id j, member-remove_from j id ids)

remove_from-AreDistinct :
    (id : Text) (ids : List Text) → AreDistinct ids → AreDistinct (remove_from id ids)
unfolding remove_from AreDistinct
remove_from-AreDistinct id [] h = tt
remove_from-AreDistinct id (k ∷ ids) h = elim (Bool-cases (text_eq k id)) [
  | inl e ↦ rw e (remove_from-AreDistinct id ids h.1)
  | inr e ↦
      rw (e, AreDistinct)
        (ground (arith, member-remove_from k id ids, h.0), remove_from-AreDistinct id ids h.1)
]

length-remove_from : (id : Text) (ids : List Text) → length (remove_from id ids) ≤ length ids
unfolding remove_from
length-remove_from id [] = omega arith
length-remove_from id (k ∷ ids) = ground (arith, length-remove_from id ids)

pub member-append :
    (j id : Text) (ids : List Text)
    → member j (ids ++ (id ∷ [])) ≡ (if member j ids then true else text_eq id j)
member-append j id [] = ground arith
member-append j id (k ∷ ids) = ground (arith, member-append j id ids)

pub append-AreDistinct :
    (id : Text) (ids : List Text)
    → AreDistinct ids
    → member id ids ≡ false
    → AreDistinct (ids ++ (id ∷ []))
unfolding AreDistinct
append-AreDistinct id [] h m = (refl, tt)
append-AreDistinct id (k ∷ ids) h m = (
  ground (arith, member-append k id ids, h.0, text_eq_iff k id, text_eq_iff id k),
  append-AreDistinct id ids h.1 (ground arith),
)

pub get_elem?-append_left :
    (xs ys : List Asset) (i : ℕ) (a : Asset)
    → get_elem? xs i ≡ some a
    → get_elem? (xs ++ ys) i ≡ some a
get_elem?-append_left [] ys i a e = cc
get_elem?-append_left (x ∷ xs) ys zero a e = e
get_elem?-append_left (x ∷ xs) ys (suc i) a e = get_elem?-append_left xs ys i a e

pub get_elem?-append_end :
    (xs : List Asset) (a : Asset) → get_elem? (xs ++ (a ∷ [])) (length xs) ≡ some a
get_elem?-append_end [] a = refl
get_elem?-append_end (x ∷ xs) a = get_elem?-append_end xs a

-- Removing an id from the list keeps the invariant.
pub listed_without :
    (s : Assets) (id : Text) → IsStored s → IsStored (record s { assets = remove_from id s.assets })
listed_without s id v = record {
  capacity = v.capacity;
  bounded = omega (arith, length-remove_from id s.assets, v.bounded);
  distinct = remove_from-AreDistinct id s.assets v.distinct;
  backed = λ j h. v.backed j (ground (arith, member-remove_from j id s.assets, h));
  pointed = v.pointed;
}

-- So does a null entry.
pub touch-IsStored : (s : Assets) (id : Text) → IsStored s → IsStored (touch id s)
unfolding touch
touch-IsStored s id v = go (lookup id s.asset_map) refl
  where
    go : (r : Option (Option ℕ)) → lookup id s.asset_map ≡ r → IsStored (touch id s)
    go (some p) e = rw (e, touch) v
    go none e =
        rw (e, touch)
          (record {
            capacity = v.capacity;
            bounded = v.bounded;
            distinct = v.distinct;
            backed = λ j h.
                let (p, q) = v.backed j h in
                (p, ground (arith, lookup-insert id j none s.asset_map, text_eq_iff id j, q, e));
            pointed = λ j p q.
                v.pointed j p
                  (ground (arith, lookup-insert id j none s.asset_map, text_eq_iff id j, q, e));
          })

-- An id without a pointer is not listed.
pub member-none :
    (s : Assets) (id : Text) → IsStored s → pointer id s ≡ none → member id s.assets ≡ false
unfolding pointer
member-none s id v e = elim (Bool-cases (member id s.assets)) [
  | inr h ↦ h
  | inl h ↦
      let (p, q) = v.backed id h in let d : some p ≡ none = rw (q, pointer) at e in absurd (cc)
]
