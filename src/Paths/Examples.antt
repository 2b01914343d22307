-- ===== src/Paths/Examples.antt =====
-- The files of a custom data directory and of the standard one.
use shmark.Base.{codes, ◌≡◌, refl, some, none, []}
use shmark.Errors.{ok}
use shmark.Paths.{
  Surroundings, data_dir, in_data_dir, socket_path, identity_path, device_path, pid_path, log_path,
  groups_state_path, settings_path, join,
}

abbrev custom : Surroundings
custom = record { custom = some (codes "/tmp/x"); os_data_dir = none }

abbrev standard : Surroundings
standard = record { custom = some []; os_data_dir = some (codes "/home/me/.local/share/") }

custom_example :
    (socket_path custom ≡ ok (codes "/tmp/x/shmark.sock"))
    × (identity_path custom ≡ ok (codes "/tmp/x/identity.json"))
    × (device_path custom ≡ ok (codes "/tmp/x/device.json"))
unfolding data_dir in_data_dir socket_path identity_path device_path join
custom_example = (refl, refl, refl)

standard_example :
    (pid_path standard ≡ ok (codes "/home/me/.local/share/shmark/shmark.pid"))
    × (log_path standard ≡ ok (codes "/home/me/.local/share/shmark/shmark.log"))
    × (groups_state_path standard ≡ ok (codes "/home/me/.local/share/shmark/groups.json"))
    × (settings_path standard ≡ ok (codes "/home/me/.local/share/shmark/settings.json"))
unfolding data_dir in_data_dir pid_path log_path groups_state_path settings_path join
standard_example = (refl, refl, refl, refl)
