-- ===== src/Common/Package/Order.antt =====
-- `ExtractPackage` of pkg/common/package.go, by the order of the devices.
use drafter.Base.{
  true, false, List, [], ◌∷◌, String, Option, none, some, ◌≡◌, ◌↔◌, refl, subst, arith, map,
  if◌then◌else◌, str_eq, eq_iff, Bool-cases, Option-cases, inl, inr, ◌⊎◌,
}
use mathlib.Core.Logic.{◌≢◌}
use drafter.Base.Dict.{insert}
use drafter.Errors.{nil, failed}
use drafter.Script.{Log, Oracle, called}
use drafter.Common.Package.{
  PackagerDevice, Content, FileSystem, Entry, Codec, PackCall, check_context, next_header,
  mkdir_all, open_file, copy_to_output, close_file,
}
use drafter.Common.Package.Extract.{
  Found, Extracted, find_entry, found, end_of_archive, failure, write_output, after_find,
  extract_next, extract_device, extract_devices,
}

-- The first entry of a name, and what is behind it.
unfoldable pub seek : String → List Entry → Option (Content × List Entry)
seek name [] = none
seek name (e ∷ es) = if str_eq e.name name then some (e.data_of, es) else seek name es

-- The devices written one after the other, each from behind where the last was found.
unfoldable pub write_all : List PackagerDevice → List Entry → FileSystem → Option FileSystem
write_all [] entries fs = some fs
write_all (d ∷ ds) entries fs = elim (seek d.name entries) [
  | none ↦ none
  | some (content, rest) ↦ write_all ds rest (insert d.path content fs)
]

write_next :
    PackagerDevice
    → List PackagerDevice
    → FileSystem
    → Option (Content × List Entry)
    → Option FileSystem
write_next d ds fs none = none
write_next d ds fs (some (content, rest)) = write_all ds rest (insert d.path content fs)

-- The names stand in the list, in this order.
abbrev pub InOrder : List String → List String → Type 0
InOrder [] ys = Unit
InOrder (x ∷ xs) [] = ⊥
InOrder (x ∷ xs) (y ∷ ys) = ((x ≡ y) × InOrder xs ys) ⊎ InOrder (x ∷ xs) ys

abbrev pub names : List Entry → List String
names = map (λ e. e.name)

abbrev pub device_names : List PackagerDevice → List String
device_names = map (λ d. d.name)

-- How the inner loop ends where no call fails: as `seek` does.
abbrev Seeks : Option (Content × List Entry) → Found → Type 0
Seeks none (end_of_archive log) = Unit
Seeks (some (content, rest)) (found content' rest' log) = (content' ≡ content) × (rest' ≡ rest)
Seeks _ _ = ⊥

-- One device where no call fails.
abbrev Extracts : String → FileSystem → Option (Content × List Entry) → Extracted → Type 0
Extracts path fs none r = failed r.error ≡ true
Extracts path fs (some (content, rest)) r =
    (r.error ≡ nil) × (r.files ≡ insert path content fs) × (r.entries ≡ rest)

-- All devices where no call fails: the files, or some error.
abbrev pub Writes : Option FileSystem → Extracted → Type 0
Writes none r = failed r.error ≡ true
Writes (some fs) r = (failed r.error ≡ false) × (r.files ≡ fs)

Writes-iff :
    (o : Option FileSystem) (r : Extracted) → Writes o r → (failed r.error ≡ false) ↔ (o ≢ none)
Writes-iff none r h = (λ e. absurd (ground arith), λ n. absurd (n refl))
Writes-iff (some fs) r h = (λ e n. cc, λ n. h.0)

module _ (reply : Oracle PackCall) (codec : Codec)
    (calm : (log : Log PackCall) (c : PackCall) → failed (reply log c) ≡ false) where
  -- The log after one round of the inner loop.
  abbrev read_one : Log PackCall → Log PackCall
  read_one log = called reply next_header (called reply check_context log)

  find_entry-Seeks :
      (name : String) (entries : List Entry) (log : Log PackCall)
      → Seeks (seek name entries) (find_entry reply codec name entries log)
  unfolding seek find_entry
  find_entry-Seeks name [] log =
      ground (arith, calm log check_context, calm (called reply check_context log) next_header)
  find_entry-Seeks name (e ∷ es) log = ground (
    arith,
    calm log check_context,
    calm (called reply check_context log) next_header,
    find_entry-Seeks name es (read_one log),
  )

  write_output-calm :
      (path : String) (content : Content) (rest : List Entry) (fs : FileSystem) (log : Log PackCall)
      → let r = write_output reply codec path content rest fs log in
        (r.error ≡ nil) × (r.files ≡ insert path content fs) × (r.entries ≡ rest)
  unfolding write_output
  write_output-calm path content rest fs log =
      let made = called reply (mkdir_all path) log in
      let opened = called reply (open_file path) made in
      let copied = called reply (copy_to_output path) opened in
      ground (
        arith,
        calm log (mkdir_all path),
        calm made (open_file path),
        calm opened (copy_to_output path),
        calm copied (close_file path),
      )

  extract_found :
      (d : PackagerDevice) (entries : List Entry) (fs : FileSystem)
      (o : Option (Content × List Entry)) (f : Found)
      → Seeks o f
      → Extracts d.path fs o (after_find reply codec d entries fs f)
  unfolding after_find
  extract_found d entries fs none (end_of_archive log) h = refl
  extract_found d entries fs (some (content, rest)) (found content' rest' log) (same, same') =
      rw (same, same') (write_output-calm d.path content rest fs log)
  extract_found d entries fs none (found c r log) h = absurd h
  extract_found d entries fs none (failure e log) h = absurd h
  extract_found d entries fs (some c) (end_of_archive log) h = absurd h
  extract_found d entries fs (some c) (failure e log) h = absurd h

  extract_device-Extracts :
      (d : PackagerDevice) (entries : List Entry) (fs : FileSystem) (log : Log PackCall)
      → Extracts d.path fs (seek d.name entries) (extract_device reply codec d entries fs log)
  unfolding extract_device
  extract_device-Extracts d entries fs log =
      extract_found d entries fs (seek d.name entries) (find_entry reply codec d.name entries log)
        (find_entry-Seeks d.name entries log)

  extract_rest :
      (d : PackagerDevice) (ds : List PackagerDevice) (fs : FileSystem)
      (o : Option (Content × List Entry)) (one : Extracted)
      → Extracts d.path fs o one
      → ((entries : List Entry) (fs' : FileSystem) (log : Log PackCall)
          → Writes (write_all ds entries fs') (extract_devices reply codec ds entries fs' log))
      → Writes (write_next d ds fs o) (extract_next reply codec ds one)
  unfolding write_next extract_next
  extract_rest d ds fs none one h ih = rw h h
  extract_rest d ds fs (some (content, rest)) one (e, f, r) ih =
      let others = ih one.entries one.files one.calls in rw (← r, ← f) (simp e others)

  -- Where no call fails, the devices are written as `write_all` does, or an error comes back.
  pub extract_devices-Writes :
      (ds : List PackagerDevice) (entries : List Entry) (fs : FileSystem) (log : Log PackCall)
      → Writes (write_all ds entries fs) (extract_devices reply codec ds entries fs log)
  unfolding write_all extract_devices write_next extract_next
  extract_devices-Writes [] entries fs log = (refl, refl)
  extract_devices-Writes (d ∷ ds) entries fs log =
      extract_rest d ds fs (seek d.name entries) (extract_device reply codec d entries fs log)
        (extract_device-Extracts d entries fs log) (extract_devices-Writes ds)

InOrder-skip : (y : String) (xs ys : List String) → InOrder xs ys → InOrder xs (y ∷ ys)
InOrder-skip y [] ys h = tt
InOrder-skip y (x ∷ xs) ys h = inr h

InOrder-tail : (x : String) (xs ys : List String) → InOrder (x ∷ xs) ys → InOrder xs ys
InOrder-tail x xs [] h = absurd h
InOrder-tail x xs (y ∷ ys) (inl (e, h)) = InOrder-skip y xs ys h
InOrder-tail x xs (y ∷ ys) (inr h) = InOrder-skip y xs ys (InOrder-tail x xs ys h)

InOrder-hit : (x y : String) (xs ys : List String) → InOrder (x ∷ xs) (y ∷ ys) → InOrder xs ys
InOrder-hit x y xs ys (inl (e, h)) = h
InOrder-hit x y xs ys (inr h) = InOrder-tail x xs ys h

InOrder-miss :
    (x y : String) (xs ys : List String)
    → str_eq y x ≡ false
    → InOrder (x ∷ xs) (y ∷ ys)
    → InOrder (x ∷ xs) ys
InOrder-miss x y xs ys miss (inl (e, h)) = absurd (ground (arith, eq_iff y x))
InOrder-miss x y xs ys miss (inr h) = h

-- The first entry of a name leaves at least what any other entry of it leaves.
seek-InOrder :
    (name : String) (xs : List String) (es : List Entry)
    → InOrder (name ∷ xs) (names es)
    → (content : Content) × (rest : List Entry) × (seek name es ≡ some (content, rest))
      × InOrder xs (names rest)
unfolding seek
seek-InOrder name xs [] h = absurd h
seek-InOrder name xs (e ∷ es) h = elim (Bool-cases (str_eq e.name name)) [
  | inl hit ↦ (e.data_of, es, rw hit, InOrder-hit name e.name xs (names es) h)
  | inr miss ↦
      let (content, rest, e', o) =
        seek-InOrder name xs es (InOrder-miss name e.name xs (names es) miss h) in
      (content, rest, rw miss e', o)
]

InOrder-seek :
    (name : String) (xs : List String) (es : List Entry) (content : Content) (rest : List Entry)
    → seek name es ≡ some (content, rest)
    → InOrder xs (names rest)
    → InOrder (name ∷ xs) (names es)
unfolding seek
InOrder-seek name xs [] content rest e h = ground arith
InOrder-seek name xs (e ∷ es) content rest there h = elim (Bool-cases (str_eq e.name name)) [
  | inl hit ↦
      inl (ground (arith, eq_iff e.name name), subst (λ r. InOrder xs (names r)) (ground arith) h)
  | inr miss ↦ inr (InOrder-seek name xs es content rest (ground arith) h)
]

write_all-InOrder :
    (ds : List PackagerDevice) (es : List Entry) (fs : FileSystem)
    → InOrder (device_names ds) (names es)
    → write_all ds es fs ≢ none
unfolding write_all
write_all-InOrder [] es fs h = λ e. cc
write_all-InOrder (d ∷ ds) es fs h =
    let (content, rest, e, o) = seek-InOrder d.name (device_names ds) es h in
    rw (e, write_all) (write_all-InOrder ds rest (insert d.path content fs) o)

InOrder-write_all :
    (ds : List PackagerDevice) (es : List Entry) (fs : FileSystem)
    → write_all ds es fs ≢ none
    → InOrder (device_names ds) (names es)
unfolding write_all
InOrder-write_all [] es fs h = tt
InOrder-write_all (d ∷ ds) es fs h = elim (Option-cases (seek d.name es)) [
  | inl gone ↦ absurd (h (rw (gone, write_all)))
  | inr ((content, rest), there) ↦
      InOrder-seek d.name (device_names ds) es content rest there
        (InOrder-write_all ds rest (insert d.path content fs) (λ e. h (rw (there, write_all) e)))
]

-- Where no call fails, the extraction of the devices returns nil exactly when their names stand in
-- the archive in the order of the devices.
pub extract_devices_iff :
    (reply : Oracle PackCall) (codec : Codec) (ds : List PackagerDevice) (es : List Entry)
    (fs : FileSystem) (log : Log PackCall)
    → ((log' : Log PackCall) (c : PackCall) → failed (reply log' c) ≡ false)
    → (failed (extract_devices reply codec ds es fs log).error ≡ false)
      ↔ InOrder (device_names ds) (names es)
extract_devices_iff reply codec ds es fs log calm =
    let (ok, ok') = Writes-iff _ _ (extract_devices-Writes reply codec calm ds es fs log) in
    (λ e. InOrder-write_all ds es fs (ok e), λ o. ok' (write_all-InOrder ds es fs o))
