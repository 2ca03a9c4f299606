-- ===== src/Adapter/Process/Gather.antt =====
-- A document that an adapter sends in several lines (src/adapter.cpp, `processData`).
use cppagent.Base.{
  ◌≡◌, refl, true, false, Option, none, some, List, [], ◌∷◌, ◌++◌, Text, text_eq, text_eq_refl, ap,
  sym, ◌∙◌, append_assoc, append-nil, All,
}
use cppagent.Adapter.Process.{Surroundings, Adapter, Call, adds_asset, process_data, gather}

-- Calls in front of those of the lines that follow.
abbrev pub prepend :
    {H : Type 0} → List Call → Option (Adapter H × List Call) → Option (Adapter H × List Call)
prepend calls none = none
prepend calls (some (a, more)) = some (a, calls ++ more)

module _ (env : Surroundings) where
  -- `processData` for each line of a list.
  unfoldable pub process_lines :
      List Text → Adapter env.Hidden → Option (Adapter env.Hidden × List Call)
  process_lines [] a = some (a, [])
  process_lines (l ∷ ls) a = elim (process_data env l a) [
    | none ↦ none
    | some (a', calls) ↦ prepend calls (process_lines ls a')
  ]

process_lines-cons :
    (env : Surroundings) (l : Text) (ls : List Text) (a a' : Adapter env.Hidden) (calls : List Call)
    → process_data env l a ≡ some (a', calls)
    → process_lines env (l ∷ ls) a ≡ prepend calls (process_lines env ls a')
unfolding process_lines
process_lines-cons env l ls a a' calls e = rw (e, process_lines) refl

-- The lines of a document, each with its end.
abbrev pub document : List Text → Text
document [] = []
document (l ∷ ls) = l ++ (10 ∷ document ls)

process_data-line :
    (env : Surroundings) (line : Text) (a : Adapter env.Hidden)
    → a.gathering_asset ≡ true
    → text_eq line a.terminator ≡ false
    → process_data env line a ≡ some (record a { body = a.body ++ (line ++ (10 ∷ [])) }, [])
unfolding process_data gather
process_data-line env line a g n = rw (g, n) refl

process_data-terminator :
    (env : Surroundings) (a : Adapter env.Hidden)
    → a.gathering_asset ≡ true
    → process_data env a.terminator a
      ≡ some (
        record a { gathering_asset = false },
        adds_asset a.asset_device a.asset_id a.body a.asset_type a.time ∷ [],
      )
unfolding process_data gather
process_data-terminator env a g = rw (g, text_eq_refl a.terminator) refl

-- While a document is gathered, lines that differ from the terminator and then the terminator make one
-- call, `addAsset` with the id, the type and the time of the first line and the document of these
-- lines behind what was gathered before; no line of it is taken for an observation, and the gathering
-- ends.
pub process_lines-document :
    (env : Surroundings) (a : Adapter env.Hidden) (ls : List Text)
    → a.gathering_asset ≡ true
    → All (λ l. text_eq l a.terminator ≡ false) ls
    → process_lines env (ls ++ (a.terminator ∷ [])) a
      ≡ some (
        record a { gathering_asset = false; body = a.body ++ document ls },
        adds_asset a.asset_device a.asset_id (a.body ++ document ls) a.asset_type a.time ∷ [],
      )
unfolding process_lines
process_lines-document env a [] g h =
    process_lines-cons env a.terminator [] a (record a { gathering_asset = false })
      (adds_asset a.asset_device a.asset_id a.body a.asset_type a.time ∷ [])
      (process_data-terminator env a g)
    ∙ ap
        (λ b. some (
          record a { gathering_asset = false; body = b },
          adds_asset a.asset_device a.asset_id b a.asset_type a.time ∷ [],
        ))
        (sym (append-nil a.body))
process_lines-document env a (l ∷ ls) g h =
    let a' = record a { body = a.body ++ (l ++ (10 ∷ [])) } in
    process_lines-cons env l (ls ++ (a.terminator ∷ [])) a a' [] (process_data-line env l a g h.0)
    ∙ ap (prepend []) (process_lines-document env a' ls g h.1)
    ∙ ap
        (λ b. some (
          record a { gathering_asset = false; body = b },
          adds_asset a.asset_device a.asset_id b a.asset_type a.time ∷ [],
        ))
        (append_assoc a.body (l ++ (10 ∷ [])) (document ls)
          ∙ ap (λ t. a.body ++ t) (append_assoc l (10 ∷ []) (document ls)))
