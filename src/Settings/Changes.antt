-- ===== src/Settings/Changes.antt =====
-- What `settings_set` leaves in memory and on the disk, and which roots are searched.
use shmark.Base.{
  Text, ◌≡◌, ◌≢◌, refl, sym, ◌∙◌, subst, or_else, Option, none, some, true, false, [], map, All,
  arith, Option-cases, Bool-cases, inl, inr, is_empty, is_empty_sound, All-filter,
}
use shmark.Errors.{Result, ok, Result-cases}
use shmark.Disk.Laws.{lookup-write, unreadable-write, read_file}
use shmark.Json.{Json}
use shmark.Action.{Held, write_file, write_file-done, ◌>>◌, this}
use shmark.Paths.{join}
use shmark.Resolve.{FileSystem}
use shmark.Settings.{
  Settings, StoredSettings, Change, changed, load, load_or_default, save, settings_set,
  default_roots, effective_search_roots, default_names,
}

-- One setting, as the request has it.
abbrev Given {ℓ} : {A : Type ℓ} → Option A → A → A → Type ℓ
Given none old new = new ≡ old
Given (some x) old new = new ≡ x

pub record Changes (c : Change) (old new : Settings) : Type 0 where
  pub hotkey : Given c.hotkey old.hotkey new.hotkey
  pub search_roots : Given c.search_roots old.search_roots new.search_roots
  pub auto_pin : Given c.auto_pin old.auto_pin new.auto_pin

or_else-Given {ℓ} : {A : Type ℓ} (given : Option A) (old : A) → Given given old (or_else old given)
or_else-Given none old = refl
or_else-Given (some x) old = refl

changed-Changes : (c : Change) (s : Settings) → Changes c s (changed c s)
unfolding changed
changed-Changes c s = record {
  hotkey = or_else-Given c.hotkey s.hotkey;
  search_roots = or_else-Given c.search_roots s.search_roots;
  auto_pin = or_else-Given c.auto_pin s.auto_pin;
}

module _ (json : Json StoredSettings) (ensure : Result (Unit {0})) (path : Text) where
  save_lem :
      (s : Held Settings)
      → s.disk.unreadable path ≡ false
      → (save json ensure (ok path) s).0 ≡ ok tt
      → load_or_default json path (save json ensure (ok path) s).1.disk ≡ ok s.value
  unfolding save load_or_default load
  save_lem s readable done = elim (Result-cases ensure) [
    | inl (_, e) ↦
        elim (Option-cases (
          json.to_string (record {
            hotkey = some s.value.hotkey;
            search_roots = some s.value.search_roots;
            auto_pin = some s.value.auto_pin;
          }))) [
            | inl failed ↦ cc (rw (e, failed) at done)
            | inr (text, encoded) ↦
                let (there, same) =
                  read_file path text (write_file path text s).1.disk
                    (lookup-write path text s.disk
                      (write_file-done path text s (rw (e, encoded) at done)))
                    (rw unreadable-write readable) in
                rw (e, encoded, there, same, json.from_str-to_string _ text encoded) refl
          ]
    | inr (inl (y, k)) ↦ cc (rw k at done)
    | inr (inr k) ↦ cc (rw k at done)
  ]

  value-save : (s : Held Settings) → (save json ensure (ok path) s).1.value ≡ s.value
  unfolding save
  value-save s = ground arith

  then_this_state :
      (s : Held Settings)
      → ((save json ensure (ok path) >> this) s).1 ≡ (save json ensure (ok path) s).1
  then_this_state s = ground arith

  then_this_done :
      (s : Held Settings) (x : Settings)
      → ((save json ensure (ok path) >> this) s).0 ≡ ok x
      → ((save json ensure (ok path) s).0 ≡ ok tt) × ((save json ensure (ok path) s).1.value ≡ x)
  then_this_done s x h = ground arith

  set_lem :
      (c : Change) (s : Held Settings)
      → s.disk.unreadable path ≡ false
      → let after = settings_set json ensure (ok path) c s in
        Changes c s.value after.1.value
        × ((x : Settings)
            → after.0 ≡ ok x
            → (x ≡ after.1.value) × (load_or_default json path after.1.disk ≡ ok x))
  unfolding settings_set
  set_lem c s readable =
      let mid : Held Settings = record s { value = changed c s.value } in
      let kept : (settings_set json ensure (ok path) c s).1.value ≡ changed c s.value =
        rw (then_this_state mid) (value-save mid) in
      (
        subst (Changes c s.value) (sym kept) (changed-Changes c s.value),
        λ x h.
            let (done, same) = then_this_done mid x h in
            let value : x ≡ changed c s.value = sym same ∙ value-save mid in
            (value ∙ sym kept, rw (then_this_state mid, value) (save_lem mid readable done)),
      )

-- A file whose path can be had, and from which a start gets the settings.
abbrev pub Loads : Json StoredSettings → Result Text → Held Settings → Settings → Type 0
Loads json at s x = (path : Text) × (at ≡ ok path) × (load_or_default json path s.disk ≡ ok x)

-- `settings_set` changes in memory each setting that the request gives to what it gives, and leaves
-- each other one as it was, also where the save then fails, or where the path of the file cannot be
-- had. If it succeeds, it returns the settings in memory, and a start that reads the file gets the same,
-- if the file can be read.
pub settings_set_exact :
    (json : Json StoredSettings) (ensure : Result (Unit {0})) (at : Result Text) (c : Change)
    (s : Held Settings)
    → ((path : Text) → at ≡ ok path → s.disk.unreadable path ≡ false)
    → let after = settings_set json ensure at c s in
      Changes c s.value after.1.value
      × ((x : Settings) → after.0 ≡ ok x → (x ≡ after.1.value) × Loads json at after.1 x)
unfolding settings_set save
settings_set_exact json ensure at c s readable = elim (Result-cases at) [
  | inl (path, e) ↦
      let (changes, loads) = set_lem json ensure path c s (readable path e) in
      rw e (changes, λ x h. let (same, there) = loads x h in (same, (path, refl, there)))
  | inr (inl (y, e)) ↦ rw e (changed-Changes c s.value, λ x h. cc)
  | inr (inr e) ↦ rw e (changed-Changes c s.value, λ x h. cc)
]

-- The roots that are searched are those of the settings, where there are any, and else the default
-- folders of the home directory that exist.
pub effective_search_roots_exact :
    (fs : FileSystem) (s : Settings)
    → (s.search_roots ≢ [] → effective_search_roots fs s ≡ s.search_roots)
      × (s.search_roots ≡ [] → All (λ root. fs.exists root ≡ true) (effective_search_roots fs s))
unfolding effective_search_roots default_roots
effective_search_roots_exact fs s = (
  λ h. elim (Bool-cases (is_empty s.search_roots)) [
    | inl e ↦ absurd (h (is_empty_sound s.search_roots e))
    | inr e ↦ rw e refl
  ],
  λ h. rw h (elim (Option-cases fs.home_dir) [
    | inl e ↦ rw e tt
    | inr (home, e) ↦ rw e (All-filter fs.exists (map (join home) default_names))
  ]),
)
