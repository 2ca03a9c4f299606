-- ===== src/Assets/Requests/Lists.antt =====
-- An asset that was stored is found (src/agent.cpp, `storeAsset` and `handleAssets`).
use cppagent.Base.{
  ◌≡◌, refl, true, false, Option, none, some, List, [], ◌∷◌, Text, Map, codes, length, arith, ap,
  sym, ◌∙◌, ◌⊎◌, inl, inr, is_empty, any_of, not,
}
use cppagent.Params.{query}
use cppagent.Calls.{DeviceInfo}
use cppagent.Assets.{Asset, Assets, AssetEvent, Outcome, deref, add_asset}
use cppagent.Assets.IsStored.{IsStored}
use cppagent.Assets.Adds.{IsAdded, add_asset-IsAdded}
use cppagent.Assets.Requests.{
  listed, find_assets, handle_assets, store_with, Tokenizer, is_asset_char, identifiers, Stored,
  success, reply,
}

-- An id that is one identifier: it is not empty, and every character is one of an identifier.
abbrev pub IsIdentifier : Text → Type 0
IsIdentifier id = (is_empty id ≡ false) × (any_of (λ c. not (is_asset_char c)) id ≡ false)

-- What dlib's tokenizer does with an identifier, whose characters may all stand first.
abbrev pub CutsWhole : Tokenizer → Type 0
CutsWhole tokens =
    (id : Text) → IsIdentifier id → tokens is_asset_char is_asset_char id ≡ (true, id) ∷ []

-- What storing an asset answers with.
abbrev pub IsFound :
    Tokenizer → Map Text → Text → Asset → Option (Stored × Assets × List AssetEvent) → Type 0
IsFound tokens queries id a none = ⊥
IsFound tokens queries id a (some (r, s, es)) =
    IsStored s
    × (r ≡ success
        → (handle_assets tokens queries id s).0 ≡ listed s.max_assets (length s.assets) (a ∷ []))

find_one :
    (id : Text) (a : Asset) (s : Assets)
    → deref id s ≡ some a
    → (find_assets (id ∷ []) s).0 ≡ listed s.max_assets (length s.assets) (a ∷ [])
unfolding find_assets
find_one id a s e = ground (arith, e)

reply-IsFound :
    (tokens : Tokenizer) (queries : Map Text) (what id : Text) (a : Asset) (r : Outcome)
    → CutsWhole tokens
    → IsIdentifier id
    → a.asset_id ≡ id
    → IsAdded a r
    → IsFound tokens queries id a (reply what id r)
unfolding reply handle_assets identifiers
reply-IsFound tokens queries what id a none t e same h = h
reply-IsFound tokens queries what id a (some (false, s, es)) t e same h = (h.0, λ x. ground arith)
reply-IsFound tokens queries what id a (some (true, s, es)) t e same h =
    (h.0, λ x. rw (e.0, t id e) (find_one id a s (ap (λ k. deref k s) (sym same) ∙ (h.1 refl).0)))

-- A PUT or a POST of an asset under an id of letters, digits and the other characters that `handleAssets`
-- takes for those of an identifier, at least one, never faults, and if it answers with success, a GET of its
-- id lists the stored asset and no other: as the parser made it, with the id, the time and the device of the
-- request. The list and the map of the assets have to agree before, the parser has to make an asset of
-- the body, and the tokenizer has to cut such an id into one token, an identifier.
pub store_with-IsFound :
    (tokens : Tokenizer) (parse_asset : Text → Text → Text → Option Asset) (now : Text)
    (changed : Option Text) (d : DeviceInfo) (queries gets : Map Text) (cmd id body : Text)
    (s : Assets) (a : Asset)
    → (cmd ≡ codes "PUT") ⊎ (cmd ≡ codes "POST")
    → CutsWhole tokens
    → IsIdentifier id
    → parse_asset id (query queries (codes "type")) body ≡ some a
    → IsStored s
    → IsFound tokens gets id
        (record a { asset_id = id; timestamp = now; device_uuid = d.uuid })
        (store_with parse_asset now changed d queries cmd id body s)
unfolding store_with
store_with-IsFound tokens parse_asset now changed d queries gets cmd id body s a c t e p v =
    let added =
      add_asset-IsAdded parse_asset now d.uuid id body (query queries (codes "type")) [] s a v p in
    let b = record a { asset_id = id; timestamp = now; device_uuid = d.uuid } in
    let r =
      reply-IsFound tokens gets (codes "Cannot add asset (") id b
        (add_asset parse_asset now d.uuid id body (query queries (codes "type")) [] s) t e refl
        added in
    elim c [ inl put ↦ rw put r | inr post ↦ rw post r ]
