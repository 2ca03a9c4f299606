-- ===== src/Adapter/Commands/Frames.antt =====
-- What a command of an adapter leaves alone (src/adapter.cpp, `protocolCommand`).
use cppagent.Base.{
  ℕ, zero, suc, ◌<◌, ◌≡◌, ◌≢◌, refl, Bool, true, false, Option, none, some, List, [], ◌∷◌, ◌++◌,
  Text, codes, All, length, text_eq, split_first, get_elem?, set, length-set, get_elem?-set_ne,
  ◌==◌, arith, Bool-cases, inl, inr, subst, Option-cases, is_some, if◌then◌else◌, sym, ap, ◌∙◌,
}
use mathlib.Core.Option.{some-injective}
use cppagent.Adapter.{trim, is_true}
use cppagent.DataItem.Conversion.{Numbers}
use cppagent.Adapter.Commands.{
  DeviceState, Commanded, fault, own_device, use_device, first_case, commands, Outcome, returned,
  invalid_argument, on_device, change_device, find_position, run_command, protocol_command,
  set_uuid, describe, set_description, set_native_name, calibrated, has_triple, behind_two,
}

-- The maps lead to devices, and so does the adapter's pointer, where it is not null.
pub record IsLinked (a : Commanded) : Type 0 where
  pub own : (i : ℕ) → a.device ≡ some i → i < length a.devices
  pub found : (id : Text) (i : ℕ) → find_position a id ≡ some i → i < length a.devices

-- The other devices and the agent's maps are as they were, and the adapter has a device if it had one; an
-- exception is thrown only for a device that the maps do not know, and only an adapter without a device
-- reads through null.
abbrev pub IsLocal : Commanded → Outcome → Type 0
IsLocal a (returned b) =
    ((j : ℕ) → a.device ≢ some j → get_elem? b.devices j ≡ get_elem? a.devices j)
    × (b.uuid_map ≡ a.uuid_map)
    × (b.name_map ≡ a.name_map)
    × (is_some a.device ≡ true → is_some b.device ≡ true)
    × IsLinked b
IsLocal a (invalid_argument message) =
    (name : Text) × (find_position a name ≡ none)
    × (message ≡ codes "Cannot find device for device name or uuid: " ++ name)
IsLocal a fault = a.device ≡ none

get_elem?-some {ℓ} :
    {A : Type ℓ} (xs : List A) (i : ℕ) → i < length xs → (x : A) × (get_elem? xs i ≡ some x)
get_elem?-some [] i h = absurd (omega arith)
get_elem?-some (x ∷ xs) zero h = (x, refl)
get_elem?-some (x ∷ xs) (suc i) h = get_elem?-some xs i (omega arith)

same-IsLocal : (a : Commanded) → IsLinked a → IsLocal a (returned a)
same-IsLocal a v = ((λ j h. refl), refl, refl, (λ h. h), v)

own-some :
    (ds : List DeviceState) (x : Option ℕ) (i : ℕ) (d : DeviceState)
    → x ≡ some i
    → get_elem? ds i ≡ some d
    → ◌≡◌ {A = Option (ℕ × DeviceState)}
        (elim x [
          | none ↦ none
          | some i ↦ elim (get_elem? ds i) [ none ↦ none | some d ↦ some (i, d) ]
        ])
        (some (i, d))
own-some ds x i d e g = rw e (rw g refl)

own-none :
    (ds : List DeviceState) (x : Option ℕ)
    → x ≡ none
    → ◌≡◌ {A = Option (ℕ × DeviceState)}
        (elim x [
          | none ↦ none
          | some i ↦ elim (get_elem? ds i) [ none ↦ none | some d ↦ some (i, d) ]
        ])
        none
own-none ds x e = rw e refl

on_device-IsLocal :
    (f : DeviceState → Option DeviceState) (a : Commanded) → IsLinked a → IsLocal a (on_device f a)
unfolding on_device find_position
on_device-IsLocal f a v = elim (Option-cases a.device) [
  | inl e ↦ subst (λ x. IsLocal a (use_device f a x)) (sym (own-none a.devices a.device e)) e
  | inr (i, e) ↦
      let lt = v.own i e in
      let (d, g) = get_elem?-some a.devices i lt in
      let own : own_device a ≡ some (i, d) = own-some a.devices a.device i d e g in
      subst (λ x. IsLocal a (use_device f a x)) (sym own) (go i d e lt (f d))
]
  where
    go :
        (i : ℕ) (d : DeviceState)
        → a.device ≡ some i
        → i < length a.devices
        → (x : Option DeviceState)
        → IsLocal a (elim x [
          | none ↦ returned a
          | some d' ↦ returned (record a { devices = set a.devices i d' })
        ])
    go i d e lt none = same-IsLocal a v
    go i d e lt (some d') =
        let len = length-set a.devices i d' in
        (
          (λ j h. get_elem?-set_ne a.devices d' (λ k. h (e ∙ ap some k))),
          refl,
          refl,
          (λ h. h),
          record {
            own = λ k q. let le = v.own k q in omega arith;
            found = λ id k q. let le = v.found id k q in omega arith;
          },
        )

change_device-IsLocal :
    (value : Text) (a : Commanded) → IsLinked a → IsLocal a (change_device value a)
unfolding change_device find_position
change_device-IsLocal value a v = go (find_position a value) refl
  where
    go : (x : Option ℕ) → find_position a value ≡ x → IsLocal a (change_device value a)
    go none e = rw (e, change_device, IsLocal) (value, e, refl)
    go (some i) e =
        rw (e, change_device, IsLocal)
          (
            (λ j h. refl),
            refl,
            refl,
            (λ h. refl),
            record {
              own = λ k q.
                  subst (λ m. m < length a.devices) (some-injective _ _ q) (v.found value i e);
              found = v.found;
            },
          )

-- The settings of the adapter alone.
settings-IsLocal :
    (a : Commanded) (c r t : Bool) (w : List Text)
    → IsLinked a
    → IsLocal a (
        returned
          (record a { conversion_required = c; relative_time = r; real_time = t; written = w }))
unfolding find_position
settings-IsLocal a c r t w v =
    ((λ j h. refl), refl, refl, (λ h. h), record { own = v.own; found = v.found })

-- A chain of tests between outcomes.
first_case-IsLocal :
    (a : Commanded) (cases : List (Bool × Outcome)) (y : Outcome)
    → All (λ x. IsLocal a x.1) cases
    → IsLocal a y
    → IsLocal a (first_case cases y)
first_case-IsLocal a [] y h k = k
first_case-IsLocal a ((true, x) ∷ cases) y h k = h.0
first_case-IsLocal a ((false, x) ∷ cases) y h k = first_case-IsLocal a cases y h.1 k

if-IsLocal :
    (a : Commanded) (b : Bool) (x y : Outcome)
    → IsLocal a x
    → IsLocal a y
    → IsLocal a (if b then x else y)
if-IsLocal a true x y h k = h
if-IsLocal a false x y h k = k

run_command-IsLocal :
    (N : Numbers) (key value : Text) (a : Commanded)
    → IsLinked a
    → IsLocal a (run_command N key value a)
unfolding run_command commands
run_command-IsLocal N key value a v =
    first_case-IsLocal a (commands N key value a) (returned a)
      (
        on_device-IsLocal (set_uuid value) a v,
        (
          on_device-IsLocal (describe key value) a v,
          (
            on_device-IsLocal (describe key value) a v,
            (
              on_device-IsLocal (describe key value) a v,
              (
                on_device-IsLocal (set_description value) a v,
                (
                  on_device-IsLocal (set_native_name value) a v,
                  (
                    if-IsLocal a (has_triple value) (on_device (calibrated N value) a) (returned a)
                        (on_device-IsLocal (calibrated N value) a v) (same-IsLocal a v),
                    (
                      settings-IsLocal a (is_true value) a.relative_time a.real_time a.written v,
                      (
                        settings-IsLocal a a.conversion_required (is_true value) a.real_time
                            a.written v,
                        (
                          settings-IsLocal a a.conversion_required a.relative_time (is_true value)
                              a.written v,
                          (change_device-IsLocal value a v, tt),
                        ),
                      ),
                    ),
                  ),
                ),
              ),
            ),
          ),
        ),
      )
      (same-IsLocal a v)

-- Every command of an adapter, whatever its text, changes the adapter, its own device and the
-- conversions there alone, if the agent's maps and the adapter's pointer lead to devices or, the
-- pointer, to none: the other devices and the maps stay as they are and lead to devices, the adapter has
-- a device if it had one, the command throws only for a device that is not known, and it reads through
-- null only for an adapter without a device.
pub protocol_command-IsLocal :
    (N : Numbers) (probe : Text → Text) (line : Text) (a : Commanded)
    → IsLinked a
    → IsLocal a (protocol_command N probe line a)
unfolding protocol_command
protocol_command-IsLocal N probe line a v = elim (Bool-cases (text_eq line (codes "* PROBE"))) [
  | inl e ↦
      rw (e, protocol_command)
        (settings-IsLocal a a.conversion_required a.relative_time a.real_time _ v)
  | inr e ↦ rw (e, protocol_command) (go (split_first (λ c. c == b':') (behind_two line)))
]
  where
    go :
        (x : Option (Text × Text))
        → IsLocal a (elim x [
          | none ↦ returned a
          | some (key, value) ↦ run_command N (trim key) (trim value) a
        ])
    go none = same-IsLocal a v
    go (some (key, value)) = run_command-IsLocal N (trim key) (trim value) a v
