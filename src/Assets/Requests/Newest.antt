-- ===== src/Assets/Requests/Newest.antt =====
-- What the request for assets without ids lists (src/agent.cpp, `handleAssets`).
use cppagent.Base.{
  ℕ, zero, suc, ◌-◌, ◌≡◌, refl, Bool, true, false, not, ◌&&◌, ◌||◌, none, some, List, [], ◌∷◌, ◌++◌,
  Text, Map, codes, member, lookup, take, keep_if, length, arith, ap, sym, ◌∙◌, is_empty, text_eq,
  text_eq_refl, pos, pos_part, ℤ, append_assoc, append-nil, Option-cases, inl, inr, is_some,
}
use cppagent.Params.{Checked, ok, err, query, check_and_get_param, no_value32}
use cppagent.Assets.{Asset, Assets, deref, pointer, backwards}
use cppagent.Assets.IsStored.{IsStored, member-append}
use cppagent.Assets.Requests.{
  Answer, listed, thrown, newest_assets, is_wanted, list_assets, handle_assets, Tokenizer,
}

-- The assets behind a list of ids.
unfoldable pub assets_at : List Text → Assets → List Asset
assets_at [] s = []
assets_at (id ∷ ids) s = elim (deref id s) [ none ↦ assets_at ids s | some a ↦ a ∷ assets_at ids s ]

deref-some :
    (s : Assets) (id : Text)
    → IsStored s
    → member id s.assets ≡ true
    → (a : Asset) × (deref id s ≡ some a)
unfolding deref pointer
deref-some s id v m =
    let (p, q) = v.backed id m in let (a, g, i) = v.pointed id p q in (a, rw (q, deref, pointer) g)

newest_assets-assets_at :
    (type : Text) (removed : Bool) (count : ℕ) (ids : List Text) (s : Assets)
    → IsStored s
    → ((id : Text) → member id ids ≡ true → member id s.assets ≡ true)
    → newest_assets type removed count ids s
      ≡ listed s.max_assets
          (length s.assets)
          (keep_if (is_wanted type removed) (assets_at (take count ids) s))
unfolding newest_assets assets_at
newest_assets-assets_at type removed zero [] s v h = refl
newest_assets-assets_at type removed (suc count) [] s v h = refl
newest_assets-assets_at type removed zero (id ∷ ids) s v h = refl
newest_assets-assets_at type removed (suc count) (id ∷ ids) s v h =
    let (a, e) = deref-some s id v (h id (ground (arith, text_eq_refl id))) in
    let ih = newest_assets-assets_at type removed count ids s v (λ j m. h j (ground arith)) in
    let z : suc count - 1 ≡ count = omega arith in
    let rest =
      listed s.max_assets (length s.assets)
        (keep_if (is_wanted type removed) (assets_at (take count ids) s)) in
    let ih' : newest_assets type removed (suc count - 1) ids s ≡ rest =
      ap (λ n. newest_assets type removed n ids s) z ∙ ih in
    rw (e, newest_assets, assets_at) (ground (arith, ih'))

-- A list from its last element on, in front of another one.
abbrev pub newest_first {ℓ} : {A : Type ℓ} → List A → List A → List A
newest_first [] found = found
newest_first (a ∷ xs) found = newest_first xs (a ∷ found)

append-newest_first {ℓ} :
    {A : Type ℓ} (xs found : List A) → backwards xs ++ found ≡ newest_first xs found
append-newest_first [] found = refl
append-newest_first (a ∷ xs) found =
    append_assoc (backwards xs) (a ∷ []) found ∙ append-newest_first xs (a ∷ found)

backwards-newest_first {ℓ} : {A : Type ℓ} (xs : List A) → backwards xs ≡ newest_first xs []
backwards-newest_first xs = sym (append-nil (backwards xs)) ∙ append-newest_first xs []

member-backwards : (id : Text) (ids : List Text) → member id (backwards ids) ≡ member id ids
member-backwards id [] = refl
member-backwards id (k ∷ ids) =
    ground (arith, member-append id k (backwards ids), member-backwards id ids)

assets_at-append :
    (ids more : List Text) (s : Assets)
    → assets_at (ids ++ more) s ≡ assets_at ids s ++ assets_at more s
unfolding assets_at
assets_at-append [] more s = refl
assets_at-append (id ∷ ids) more s = elim (Option-cases (deref id s)) [
  | inl e ↦ rw (e, assets_at) (assets_at-append ids more s)
  | inr (a, e) ↦ rw (e, assets_at) (ap (λ l. a ∷ l) (assets_at-append ids more s))
]

assets_at-backwards :
    (ids : List Text) (s : Assets) → assets_at (backwards ids) s ≡ backwards (assets_at ids s)
unfolding assets_at
assets_at-backwards [] s = refl
assets_at-backwards (id ∷ ids) s = elim (Option-cases (deref id s)) [
  | inl e ↦
      assets_at-append (backwards ids) (id ∷ []) s
      ∙ rw (e, assets_at) (append-nil _ ∙ assets_at-backwards ids s)
  | inr (a, e) ↦
      assets_at-append (backwards ids) (id ∷ []) s
      ∙ rw (e, assets_at) (ap (λ l. l ++ (a ∷ [])) (assets_at-backwards ids s))
]

assets_at-take :
    (n : ℕ) (ids : List Text) (s : Assets)
    → IsStored s
    → ((id : Text) → member id ids ≡ true → member id s.assets ≡ true)
    → assets_at (take n ids) s ≡ take n (assets_at ids s)
unfolding assets_at
assets_at-take zero ids s v h = refl
assets_at-take (suc n) [] s v h = refl
assets_at-take (suc n) (id ∷ ids) s v h =
    let (a, e) = deref-some s id v (h id (ground (arith, text_eq_refl id))) in
    let ih = assets_at-take n ids s v (λ j m. h j (ground arith)) in
    rw (e, assets_at) (ap (λ l. a ∷ l) ih)

keep_if-same {ℓ} :
    {A : Type ℓ} (p q : A → Bool)
    → ((a : A) → p a ≡ q a)
    → (xs : List A) → keep_if p xs ≡ keep_if q xs
keep_if-same p q h [] = refl
keep_if-same p q h (a ∷ xs) = rw (h a, keep_if-same p q h xs) refl

-- A request that names a type leaves out the assets of all other types, and one that does not ask for the
-- removed assets leaves out these.
abbrev pub is_left_out : Text → Bool → Asset → Bool
is_left_out type removed a =
    not (is_empty type) && not (text_eq type a.type) || a.removed && not removed

not-is_left_out :
    (type : Text) (removed : Bool) (a : Asset)
    → is_wanted type removed a ≡ not (is_left_out type removed a)
unfolding is_wanted
not-is_left_out type removed a = ground arith

-- The query asks for the removed assets too.
abbrev pub asks_removed : Map Text → Bool
asks_removed queries = elim (lookup (codes "removed") queries) [
  | none ↦ false
  | some v ↦ text_eq v (codes "true")
]

-- The answer for a checked count: among so many of the newest assets, from the newest one on, those that the
-- query does not leave out.
abbrev pub newest_listed : Map Text → Assets → Checked ℤ → Answer
newest_listed queries s (err code message) = thrown code message
newest_listed queries s (ok count) = listed s.max_assets (length s.assets) (
    keep_if (λ a. not (is_left_out (query queries (codes "type")) (asks_removed queries) a))
      (take (pos_part count) (newest_first (assets_at s.assets s) [])))

newest_assets-newest_first :
    (type : Text) (removed : Bool) (count : ℕ) (s : Assets)
    → IsStored s
    → newest_assets type removed count (backwards s.assets) s
      ≡ listed s.max_assets (length s.assets) (
          keep_if
            (λ a. not (is_left_out type removed a))
            (take count (newest_first (assets_at s.assets s) [])))
newest_assets-newest_first type removed count s v =
    let inside : (id : Text) → member id (backwards s.assets) ≡ true → member id s.assets ≡ true =
      λ id m. sym (member-backwards id s.assets) ∙ m in
    newest_assets-assets_at type removed count (backwards s.assets) s v inside
    ∙ ap (λ l. listed s.max_assets (length s.assets) l)
        (keep_if-same _ _ (not-is_left_out type removed) _
          ∙ ap (λ l. keep_if (λ a. not (is_left_out type removed a)) l)
              (assets_at-take count (backwards s.assets) s v inside
                ∙ ap (λ l. take count l)
                    (assets_at-backwards s.assets s
                      ∙ backwards-newest_first (assets_at s.assets s))))

asks_removed_lem :
    (queries : Map Text)
    → is_some (lookup (codes "removed") queries)
        && text_eq (query queries (codes "removed")) (codes "true")
      ≡ asks_removed queries
asks_removed_lem queries = ground arith

-- A request for assets without ids changes nothing, and throws the error of its count or is answered with
-- the capacity, the number of the assets and, of so many of the newest assets as the count says, the newest
-- one first, those that have the type of the query, if it has one, and are not removed, if it does not ask
-- for the removed ones. It never reads through a null pointer, if the list and the map agree.
pub handle_assets-newest_listed :
    (tokens : Tokenizer) (queries : Map Text) (s : Assets)
    → IsStored s
    → handle_assets tokens queries [] s ≡ (
      newest_listed queries s (
          check_and_get_param queries
            (codes "count")
            (pos (length s.assets))
            (pos 1)
            false
            no_value32
            true),
      s,
    )
unfolding handle_assets list_assets
handle_assets-newest_listed tokens queries s v =
    ap (λ x. (x, s))
      (go (
        check_and_get_param queries (codes "count") (pos (length s.assets)) (pos 1) false no_value32
          true))
  where
    go :
        (c : Checked ℤ)
        → elim c [
          | err code message ↦ thrown code message
          | ok count ↦
              newest_assets
                (query queries (codes "type"))
                (is_some (lookup (codes "removed") queries)
                  && text_eq (query queries (codes "removed")) (codes "true"))
                (pos_part count)
                (backwards s.assets)
                s
        ]
          ≡ newest_listed queries s c
    go (err code message) = refl
    go (ok count) = rw (asks_removed_lem queries) (
        newest_assets-newest_first (query queries (codes "type")) (asks_removed queries)
          (pos_part count) s v)
