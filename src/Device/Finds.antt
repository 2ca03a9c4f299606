-- ===== src/Device/Finds.antt =====
-- Which data item a name leads to (src/device.cpp).
use cppagent.Base.{
  ◌≡◌, refl, Bool, not, ◌&&◌, Option, none, some, List, [], ◌∷◌, Text, Map, lookup, lookup-insert,
  is_empty, text_eq, text_eq_iff, if◌then◌else◌, arith,
}
use cppagent.DataItem.{DataItem}
use cppagent.Device.{Items, put_key, add_device_data_item, get_device_data_item}

-- The data items of the device file in turn.
unfoldable pub add_all : List DataItem → Items → Items
add_all [] s = s
add_all (d ∷ ds) s = add_all ds (add_device_data_item d s)

-- The last data item of a kind, or one that was there before.
abbrev pub last_with : (DataItem → Bool) → List DataItem → Option DataItem → Option DataItem
last_with p [] old = old
last_with p (d ∷ ds) old = last_with p ds (if p d then some d else old)

-- The first data item of a kind, unless there was one before.
abbrev pub first_with : (DataItem → Bool) → List DataItem → Option DataItem → Option DataItem
first_with p [] old = old
first_with p (d ∷ ds) old =
    first_with p ds (elim old [ some o ↦ some o | none ↦ if p d then some d else none ])

abbrev pub has_key : (DataItem → Text) → Text → DataItem → Bool
has_key key name d = not (is_empty (key d)) && text_eq (key d) name

-- What a name leads to: the last data item with the source, or else the last one with the name, or
-- else the first one with the id.
abbrev pub found : List DataItem → Text → Option DataItem
found ds name = elim (last_with (has_key (λ d. d.source) name) ds none) [
  | some d ↦ some d
  | none ↦ elim (last_with (has_key (λ d. d.name) name) ds none) [
    | some d ↦ some d
    | none ↦ first_with (λ d. text_eq d.id name) ds none
  ]
]

lookup-put_key :
    (k name : Text) (d : DataItem) (m : Map DataItem)
    → lookup name (put_key k d m)
      ≡ (if not (is_empty k) && text_eq k name then some d else lookup name m)
unfolding put_key
lookup-put_key k name d m = ground (arith, lookup-insert k name d m)

module _ (name : Text) where
  source-add_all :
      (ds : List DataItem) (s : Items)
      → lookup name (add_all ds s).by_source
        ≡ last_with (has_key (λ d. d.source) name) ds (lookup name s.by_source)
  unfolding add_all add_device_data_item
  source-add_all [] s = refl
  source-add_all (d ∷ ds) s =
      rw (source-add_all ds (add_device_data_item d s), lookup-put_key d.source name d s.by_source)
        refl

  name-add_all :
      (ds : List DataItem) (s : Items)
      → lookup name (add_all ds s).by_name
        ≡ last_with (has_key (λ d. d.name) name) ds (lookup name s.by_name)
  unfolding add_all add_device_data_item
  name-add_all [] s = refl
  name-add_all (d ∷ ds) s =
      rw (name-add_all ds (add_device_data_item d s), lookup-put_key d.name name d s.by_name) refl

  lookup-by_id :
      (d : DataItem) (s : Items)
      → lookup name (add_device_data_item d s).by_id ≡ elim (lookup name s.by_id) [
        | some o ↦ some o
        | none ↦ if text_eq d.id name then some d else none
      ]
  unfolding add_device_data_item
  lookup-by_id d s = ground (arith, lookup-insert d.id name d s.by_id, text_eq_iff d.id name)

  id-add_all :
      (ds : List DataItem) (s : Items)
      → lookup name (add_all ds s).by_id
        ≡ first_with (λ d. text_eq d.id name) ds (lookup name s.by_id)
  unfolding add_all
  id-add_all [] s = refl
  id-add_all (d ∷ ds) s = rw (id-add_all ds (add_device_data_item d s), lookup-by_id d s) refl

abbrev pub no_items : Items
no_items = record {
  by_source = [];
  by_name = [];
  by_id = [];
  availability = none;
  asset_changed = none;
  asset_removed = none;
}

-- After the data items of a device were added, a name leads to the last one that has it as its source,
-- or else to the last one that has it as its name, or else to the first one that has it as its id.
pub get_device_data_item-add_all :
    (ds : List DataItem) (name : Text)
    → get_device_data_item (add_all ds no_items) name ≡ found ds name
unfolding get_device_data_item lookup
get_device_data_item-add_all ds name =
    chosen (source-add_all name ds no_items) (name-add_all name ds no_items)
      (id-add_all name ds no_items)
  where
    chosen :
        {x x' y y' z z' : Option DataItem}
        → x ≡ x'
        → y ≡ y'
        → z ≡ z'
        → ◌≡◌ {A = Option DataItem}
            (elim x [ some d ↦ some d | none ↦ elim y [ some d ↦ some d | none ↦ z ] ])
            (elim x' [ some d ↦ some d | none ↦ elim y' [ some d ↦ some d | none ↦ z' ] ])
    chosen p q r i = elim (p i) [
      | some d ↦ some d
      | none ↦ elim (q i) [ some d ↦ some d | none ↦ r i ]
    ]
