-- ===== src/State/Examples.antt =====
-- A first start and a second one.
use shmark.Base.{
  ℕ, Text, ◌≡◌, refl, sym, codes, ◌++◌, ◌==◌, ◌∙◌, [], inl, inr, Bool-cases, eq_sound,
}
use shmark.Errors.{ok}
use shmark.Maps.{lookup, insert}
use shmark.Disk.{write, set_mode}
use shmark.Paths
use shmark.Paths.{Surroundings, join}
use shmark.Identity
use shmark.Identity.{Identity, set_secret_perms}
use shmark.Device
use shmark.Device.{SignedDeviceCert, create_cert}
use shmark.Groups
use shmark.Settings
use shmark.Contacts
use shmark.Settings.{default_settings}
use shmark.Pairing
use shmark.Samples.{empty_disk}
use shmark.Pairing.{validate_and_consume, validate, fresh}
use shmark.State.{load_parts, boot_node, boot}
use shmark.State.Confined.{NodeFile, Confined}
use shmark.Disk.Frames.{Untouched}
use shmark.Crypto.{Bytes}
use shmark.Maps.Laws.{lookup-insert}
use shmark.State.Restart.{CanRead, boot_stable}
use shmark.State.Stored.{Runs}
use shmark.State.Runs.{sample, moment, start, first, first_end}

boots_once :
    boot sample (moment (codes "one") 5) (codes "me") start
    ≡ (ok first, (boot sample (moment (codes "one") 5) (codes "me") start).1)
unfolding boot boot_node load_parts Paths.ensure_data_dir Paths.data_dir Paths.in_data_dir
    Paths.identity_path Paths.device_path Paths.groups_state_path Paths.settings_path
    Paths.contacts_state_path join Identity.load_or_create Identity.create Identity.save
    Identity.set_secret_perms Identity.pubkey_hex Identity.pubkey_bytes Identity.sign
    Device.load_or_create Device.create Device.create_cert Device.save Groups.load Contacts.load
    Settings.load_or_default lookup insert write set_mode Pairing.new
boots_once = refl

moment-Confined : (random : Bytes) (time : ℕ) → Confined (moment random time)
moment-Confined random time secret dir path d apart =
    let store = join dir (codes "docs/" ++ secret) in
    record {
      file = elim (Bool-cases (store == path)) [
        | inl same ↦ absurd (apart (inr (secret, sym (eq_sound store path same))))
        | inr other ↦ lookup-insert store path [] d.files ∙ rw other refl
      ];
      readable = refl;
    }

can_read : CanRead sample (moment (codes "one") 5) empty_disk
can_read = record {
  identity_size = refl;
  device_size = refl;
  readable = λ p. refl;
  confined = moment-Confined (codes "one") 5;
}

runs : Runs sample (moment (codes "two") 9) first.device first_end.disk (codes "/d")
unfolding Paths.ensure_data_dir Paths.data_dir
runs = record {
  author = codes "author";
  ensured = refl;
  booted = refl;
  confined = moment-Confined (codes "two") 9;
  authored = refl;
}

boot_stable_example :
    (boot sample (moment (codes "two") 9) (codes "other") first_end ≡ (
      ok (record first { started_at = 9 }),
      record first_end {
        disk =
            ((moment (codes "two") 9).node_boot first.device.iroh_secret
              (codes "/d")
              first_end.disk).1;
      },
    ))
    × ((path : Text)
        → ¬ NodeFile (codes "/d") path
        → Untouched path first_end.disk
            ((moment (codes "two") 9).node_boot first.device.iroh_secret
              (codes "/d")
              first_end.disk).1)
boot_stable_example =
    boot_stable sample (moment (codes "one") 5) (codes "me") first start first_end can_read
      boots_once (moment (codes "two") 9) (codes "other") (codes "/d") runs
