-- ===== src/Http/Paths.antt =====
-- The paths and the files of the HTTP requests (src/agent.cpp, `httpRequest` and `handleFile`).
use cppagent.Base.{
  ℕ, ◌≤◌, ◌≡◌, refl, true, false, Option, none, some, [], ◌∷◌, ◌++◌, Text, Map, any_of, is_empty,
  split_first, split_first-found, split_first-none, if◌then◌else◌, arith, ap, sym, ◌∙◌, lookup,
  insert, lookup-insert, text_eq_refl, length, leb,
}
use cppagent.Http.{device_and_call, is_slash, handle_file, load_file, file_found, content_type}

-- What a path names: each shape, with a slash at its end or without.
abbrev pub ReadsPath : Text → Text → Text → Type 0
ReadsPath device call more =
    (device_and_call call ≡ some ([], call))
    × (device_and_call (call ++ (b'/' ∷ [])) ≡ some ([], call))
    × (device_and_call (device ++ (b'/' ∷ call)) ≡ some (device, call))
    × (device_and_call (device ++ (b'/' ∷ (call ++ (b'/' ∷ [])))) ≡ some (device, call))
    × (device_and_call (device ++ (b'/' ∷ (call ++ (b'/' ∷ more)))) ≡ none)

module _ (device call : Text) (no_slash : any_of is_slash device ≡ false)
    (no_slash' : any_of is_slash call ≡ false) (some_call : is_empty call ≡ false) where
  is_empty-call : (t : Text) → is_empty (call ++ t) ≡ false
  is_empty-call t = go call some_call
    where
      go : (c : Text) → is_empty c ≡ false → is_empty (c ++ t) ≡ false
      go [] h = absurd (ground arith)
      go (d ∷ c) h = refl

  -- The split behind the device.
  second :
      (t : Text) → split_first is_slash (device ++ (b'/' ∷ (call ++ t))) ≡ some (device, call ++ t)
  second t = split_first-found is_slash device (call ++ t) b'/' no_slash refl

  device_and_call-nil : device_and_call call ≡ some ([], call)
  unfolding device_and_call
  device_and_call-nil = rw (split_first-none is_slash call no_slash', device_and_call) refl

  device_and_call-end : device_and_call (call ++ (b'/' ∷ [])) ≡ some ([], call)
  unfolding device_and_call
  device_and_call-end =
      rw (split_first-found is_slash call [] b'/' no_slash' refl, device_and_call) refl

  device_and_call-device : device_and_call (device ++ (b'/' ∷ call)) ≡ some (device, call)
  unfolding device_and_call
  device_and_call-device =
      rw (split_first-found is_slash device call b'/' no_slash refl, device_and_call)
        (ground (arith, some_call, split_first-none is_slash call no_slash'))

  device_and_call-tail :
      (more : Text)
      → device_and_call (device ++ (b'/' ∷ (call ++ (b'/' ∷ more))))
        ≡ (if is_empty more then some (device, call) else none)
  unfolding device_and_call
  device_and_call-tail more =
      rw (second (b'/' ∷ more), device_and_call)
        (ground (
          arith,
          is_empty-call (b'/' ∷ more),
          split_first-found is_slash call more b'/' no_slash' refl,
        ))

-- A path behind its first slash names a call, or a device and a call, with or without a slash at its
-- end; one with more behind the call is refused.
pub device_and_call-ReadsPath :
    (device call more : Text)
    → any_of is_slash device ≡ false
    → any_of is_slash call ≡ false
    → is_empty call ≡ false
    → is_empty more ≡ false
    → ReadsPath device call more
device_and_call-ReadsPath device call more h k c m = (
  device_and_call-nil device call h k c,
  device_and_call-end device call h k c,
  device_and_call-device device call h k c,
  device_and_call-tail device call h k c [],
  device_and_call-tail device call h k c more ∙ ap (λ b. if b then some (device, call) else none) m,
)

-- A file that was read is answered from the cache from then on, whatever is on the disk, with the same
-- content type and the same bytes, if it is small.
pub handle_file-handle_file :
    (read_file later : Text → Option Text) (small : ℕ) (mime_types file_map : Map Text)
    (uri path bytes : Text) (cache : Map Text)
    → lookup uri cache ≡ none
    → lookup uri file_map ≡ some path
    → read_file path ≡ some bytes
    → length bytes ≤ small
    → let first = handle_file read_file small mime_types file_map uri cache in
      let second = handle_file later small mime_types file_map uri first.1 in
      (first.0 ≡ file_found (content_type mime_types uri) bytes) × (second ≡ first)
unfolding handle_file load_file
handle_file-handle_file read_file later small mime_types file_map uri path bytes cache c f r le =
    let kept : leb (length bytes) small ≡ true = ground arith in
    let found : lookup uri (insert uri bytes cache) ≡ some bytes =
      ground (arith, lookup-insert uri uri bytes cache, text_eq_refl uri) in
    let one : handle_file read_file small mime_types file_map uri cache
        ≡ (file_found (content_type mime_types uri) bytes, insert uri bytes cache) =
      rw (c, handle_file) (rw (f, load_file) (rw (r, load_file) (rw kept refl))) in
    let two : handle_file later small mime_types file_map uri (insert uri bytes cache)
        ≡ (file_found (content_type mime_types uri) bytes, insert uri bytes cache) =
      rw (found, handle_file) refl in
    (
      ap (λ x. x.0) one,
      ap (λ x. handle_file later small mime_types file_map uri x.1) one ∙ two ∙ sym one,
    )
