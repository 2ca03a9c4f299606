-- ===== src/Availability/Lost.antt =====
-- What `disconnected` makes of one data item (src/agent.cpp).
use cppagent.Base.{
  ◌≡◌, refl, Bool, true, false, not, ◌&&◌, Option, none, some, [], ◌∷◌, Text, lookup, insert,
  lookup-insert, length, text_eq, text_eq_refl, ltb, if◌then◌else◌, arith, Bool-cases, ◌⊎◌, inl,
  inr, ap, sym, subst, ◌∙◌,
}
use cppagent.DataSet.{nil, is_empty_set}
use cppagent.DataItem.{DataItem, is_condition, is_data_set, allow_dups}
use cppagent.DataItem.Conversion.{Numbers, Conversion}
use cppagent.Observation.{Observation, Chain, Level, same_level, get_level}
use cppagent.Observation.Values.{Run, done, thrown, unfinished, Regexes}
use cppagent.Observation.Build.{new_observation, Built}
use cppagent.Checkpoint.{add_observation, update, data_set_difference}
use cppagent.SlidingBuffer.{SlidingBuffer}
use cppagent.Sequencer.{Sequencer, store, add_event}
use cppagent.ChangeObserver.{Signals, signal_observers}
use cppagent.Streaming.{add_to_buffer}
use cppagent.Adapter.Process.{Surroundings, Adapter, is_duplicate}
use cppagent.Availability.{
  World, unavailable, condition_unavailable, lost_value, add_value, put_observation,
  disconnect_item,
}
use cppagent.Availability.Losses.{
  is_lost, Lost, lost_text, IsLoss, new_observation-IsLoss, update-Lost,
}

module _ (lib : SlidingBuffer) (N : Numbers) (R : Regexes) (env : Surroundings) where
  abbrev pub Around : Type 0
  Around = World lib.Buffer env.Hidden

  abbrev pub latest_of : Text → Around → Option Chain
  latest_of k w = lookup k w.agent.latest.events

  -- The loss of a data item was stored, and the other data items are as they were.
  record IsReported (d : DataItem) (w w' : Around) : Type 0 where
    lost : Lost d (latest_of d.id w')
    pub others : (k : Text) → text_eq d.id k ≡ false → latest_of k w' ≡ latest_of k w
    pub unfiltered : w'.agent.latest.has_filter ≡ false
    pub same_adapter : w'.adapter ≡ w.adapter

  abbrev Reports : DataItem → Around → Run Around → Type 0
  Reports d w (done w') = IsReported d w w'
  Reports d w thrown = ⊥
  Reports d w unfinished = ⊥

  add_event-loss :
      (a : Sequencer lib.Buffer) (o : Observation)
      → o.values ≡ nil
      → add_event lib a o ≡ some (a.sequence, store lib a o)
  unfolding add_event data_set_difference is_empty_set
  add_event-loss a o e =
      let same : data_set_difference o a.latest ≡ (true, o) =
        elim (Bool-cases (is_data_set o.item)) [
          | inl y ↦ rw (y, data_set_difference) (rw e refl)
          | inr n ↦ rw (n, data_set_difference) refl
        ] in
      elim (Bool-cases (not (allow_dups o.item) && is_data_set o.item)) [
        | inl y ↦ rw (y, add_event) (rw same refl)
        | inr n ↦ rw (n, add_event) refl
      ]

  stored-IsReported :
      (o : Observation) (w : Around) (c : Text → Conversion) (s : Signals)
      → is_lost o.item o ≡ true
      → w.agent.latest.has_filter ≡ false
      → IsReported o.item w (record w { agent = store lib w.agent o; signals = s; conversions = c })
  unfolding store add_observation
  stored-IsReported o w c s h f =
      let id = o.item.id in
      let old = lookup id w.agent.latest.events in
      let now : add_observation o w.agent.latest
          ≡ record w.agent.latest { events = insert id (update o old) w.agent.latest.events } =
        simp f refl in
      let at : (k : Text)
          → lookup k (add_observation o w.agent.latest).events
            ≡ (if text_eq id k then some (update o old) else lookup k w.agent.latest.events) =
        λ k.
          ap (λ x. lookup k x.events) now
          ∙ lookup-insert id k (update o old) w.agent.latest.events in
      let itself : lookup id (add_observation o w.agent.latest).events ≡ some (update o old) =
        at id ∙ ap (λ b. if b then some (update o old) else old) (text_eq_refl id) in
      record {
        lost = subst (Lost o.item) (sym itself) (update-Lost o old h);
        others = λ k ne.
            at k ∙ ap (λ b. if b then some (update o old) else lookup k w.agent.latest.events) ne;
        unfiltered = ap (λ x. x.has_filter) now ∙ f;
        same_adapter = refl;
      }

  add_to_buffer-loss :
      (a : Sequencer lib.Buffer) (o : Observation) (g : Signals)
      → o.values ≡ nil
      → add_to_buffer lib o a g
        ≡ (a.sequence, store lib a o, signal_observers o.item.id a.sequence g)
  unfolding add_to_buffer
  add_to_buffer-loss a o g e = rw (add_event-loss a o e, add_to_buffer) refl

  put_observation-Reports :
      (d : DataItem) (w : Around) (r : Built)
      → IsLoss d r
      → w.agent.latest.has_filter ≡ false
      → Reports d w (put_observation lib N R env d w r)
  put_observation-Reports d w (done (o, c)) h f =
      let here : is_lost o.item o ≡ true = subst (λ e. is_lost e o ≡ true) (sym h.0) h.1 in
      let kept : Text → Conversion = λ id. if text_eq d.id id then c else w.conversions id in
      subst (λ x. IsReported d w (record w { agent = x.1; signals = x.2; conversions = kept }))
        (sym (add_to_buffer-loss w.agent o w.signals h.2))
        (subst
          (λ e. IsReported e w (record w {
            agent = store lib w.agent o;
            signals = signal_observers o.item.id w.agent.sequence w.signals;
            conversions = kept;
          }))
          h.0
          (stored-IsReported o w kept (signal_observers o.item.id w.agent.sequence w.signals) here
            f))
  put_observation-Reports d w thrown h f = h
  put_observation-Reports d w unfinished h f = h

  add_value-Reports :
      (d : DataItem) (time : Text) (w : Around)
      → w.agent.latest.has_filter ≡ false
      → Reports d w (add_value lib N R env d (lost_text d) time w)
  unfolding add_value
  add_value-Reports d time w f =
      put_observation-Reports d w
        (new_observation N R d w.agent.sequence time (lost_text d) (w.conversions d.id))
        (new_observation-IsLoss N R d w.agent.sequence time (w.conversions d.id)) f

  -- The check for duplicates is off, and nothing filters a data item.
  abbrev pub IsPlain : DataItem → Type 0
  IsPlain d =
      (d.has_minimum_delta ≡ false)
      × (d.has_minimum_period ≡ false)
      × (d.has_constraints ≡ true → ltb 1 (length d.values) ≡ true)

  is_duplicate-off :
      (d : DataItem) (v : Text) (nan : env.Offset) (a : Adapter env.Hidden)
      → IsPlain d
      → a.dup_check ≡ false
      → is_duplicate env d v nan a ≡ (false, a)
  unfolding is_duplicate
  is_duplicate-off d v nan a p off = ground (arith, p.0, p.1, off)

  -- What was there is gone.
  abbrev pub Gone : DataItem → Option Chain → Option Chain → Type 0
  Gone d none new = Unit
  Gone d (some []) new = Unit
  Gone d (some (o ∷ chain)) new = Lost d new

  -- A data item is gone, the others and the adapter are as they were.
  pub record Leaves (d : DataItem) (w w' : Around) : Type 0 where
    pub gone : Gone d (latest_of d.id w) (latest_of d.id w')
    pub others : (k : Text) → text_eq d.id k ≡ false → latest_of k w' ≡ latest_of k w
    pub unfiltered : w'.agent.latest.has_filter ≡ false
    pub same_adapter : w'.adapter ≡ w.adapter

  abbrev pub LeavesRun : DataItem → Around → Run Around → Type 0
  LeavesRun d w (done w') = Leaves d w w'
  LeavesRun d w thrown = ⊥
  LeavesRun d w unfinished = ⊥

  -- The value that is reported is that of a loss, and there is none only if it was lost before.
  lost_value-lost_text :
      (d : DataItem) (o : Observation)
      → IsPlain d
      → ((lost_value d o ≡ none) × (is_lost d o ≡ true)) ⊎ (lost_value d o ≡ some (lost_text d))
  unfolding lost_value
  lost_value-lost_text d o p =
      go (is_condition d) (same_level (get_level o) Level.unavailable) d.has_constraints
        (ltb 1 (length d.values)) (text_eq o.value unavailable) p.2
    where
      value : (c s h m u : Bool) → Option Text
      value c s h m u =
          if c
          then (if not s then some condition_unavailable else none)
          else if h
          then (if m && not u then some unavailable else none)
          else if not u
          then some unavailable
          else none

      go :
          (c s h m u : Bool)
          → (h ≡ true → m ≡ true)
          → ((value c s h m u ≡ none) × ((if c then s else u) ≡ true))
            ⊎ (value c s h m u ≡ some (if c then condition_unavailable else unavailable))
      go true true h m u p = inl (refl, refl)
      go true false h m u p = inr refl
      go false s true true true p = inl (refl, refl)
      go false s true true false p = inr refl
      go false s true false u p = let e : false ≡ true = p refl in absurd (ground arith)
      go false s false m true p = inl (refl, refl)
      go false s false m false p = inr refl

  pub disconnect_item-LeavesRun :
      (nan : env.Offset) (time : Text) (d : DataItem) (w : Around)
      → IsPlain d
      → w.adapter.dup_check ≡ false
      → w.agent.latest.has_filter ≡ false
      → LeavesRun d w (disconnect_item lib N R env nan time d w)
  unfolding disconnect_item
  disconnect_item-LeavesRun nan time d w p off f = go (latest_of d.id w) refl
    where
      same : Gone d (latest_of d.id w) (latest_of d.id w) → Leaves d w w
      same g = record { gone = g; others = λ k ne. refl; unfiltered = f; same_adapter = refl }

      reported :
          (o : Observation) (chain : Chain) (r : Run Around)
          → latest_of d.id w ≡ some (o ∷ chain)
          → Reports d w r
          → LeavesRun d w r
      reported o chain (done w') e h = record {
        gone = rw (e, Gone) h.lost;
        others = h.others;
        unfiltered = h.unfiltered;
        same_adapter = h.same_adapter;
      }
      reported o chain thrown e h = h
      reported o chain unfinished e h = h

      go :
          (x : Option Chain)
          → latest_of d.id w ≡ x
          → LeavesRun d w (disconnect_item lib N R env nan time d w)
      go none e = rw (e, disconnect_item) (same (rw (e, Gone) tt))
      go (some []) e = rw (e, disconnect_item) (same (rw (e, Gone) tt))
      go (some (o ∷ chain)) e = elim (lost_value-lost_text d o p) [
        | inl (n, was) ↦ rw (e, disconnect_item) (rw n (same (rw (e, Gone) was)))
        | inr v ↦
            rw (e, disconnect_item)
              (rw (v, is_duplicate-off d (lost_text d) nan w.adapter p off)
                (reported o chain (add_value lib N R env d (lost_text d) time w) e
                  (add_value-Reports d time w f)))
      ]
