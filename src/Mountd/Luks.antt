-- ===== src/Mountd/Luks.antt =====
-- mountd/src/luks.c on Linux: LUKS containers through libcryptsetup, and libblkid.
use isde.Common.{Bool, true, false, Option, none, some, Str, fit, ◌∷◌, if◌then◌else◌}
use isde.Mountd.Device.{fs_type_len}
use isde.Mountd.World.{
  activate, deactivate, Activation, activated, wrong_passphrase, failed, Os, World, M, ok, throw,
  require, ◌>>◌, record_event, crypt_init_error, crypt_load_error, bad_passphrase,
  crypt_activate_error,
}

module _ (os : Os) where
  opened : Str → Str → Activation → M (Unit {0})
  opened dev dm activated = record_event (activate dev dm true)
  opened dev dm wrong_passphrase = do record_event (activate dev dm false); throw bad_passphrase
  opened dev dm failed = do record_event (activate dev dm false); throw crypt_activate_error

  -- `mountd_luks_open`
  unfoldable pub luks_open : (dev_path dm_name passphrase : Str) → M (Unit {0})
  unfolding opened require record_event
  luks_open dev dm passphrase w =
      (do
        require (os.crypt_init w.log dev) crypt_init_error
        require (os.crypt_load w.log dev) crypt_load_error
        opened dev dm (os.crypt_activate w.log dev dm passphrase))
        w

  -- `mountd_luks_close`: whether it returns 0.
  unfoldable pub luks_close : (dm_name : Str) → M Bool
  luks_close dm w =
      if os.crypt_init_by_name w.log dm
      then (
        ok (os.crypt_deactivate w.log dm),
        record w { log = deactivate dm (os.crypt_deactivate w.log dm) ∷ w.log },
      )
      else (ok false, w)

  -- `mountd_luks_is_active`
  unfoldable pub luks_is_active : Str → World → Bool
  luks_is_active dm w = os.crypt_is_active w.log dm

  -- `mountd_luks_probe_fs`: the type as the caller's buffer holds it. The wait for udev before it
  -- writes nothing.
  unfoldable pub luks_probe_fs : Str → World → Option Str
  luks_probe_fs path w =
      if os.new_probe w.log path
      then (if os.safe_probe w.log path
          then elim (os.probed_type w.log path) [ none ↦ none | some t ↦ some (fit fs_type_len t) ]
          else none)
      else none
