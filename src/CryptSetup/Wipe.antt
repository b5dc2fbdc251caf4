-- ===== src/CryptSetup/Wipe.antt =====
-- constellation/cryptsetup/cryptsetup.go, `Wipe`: the temporary device on its error paths.
use geth_sev.Prelude.{
  ◌≡◌, refl, Bytes, some, List, [], ◌∷◌, ◌++◌, Bool, true, false, ◌&&◌, Result, ok, err, is_ok,
}
use geth_sev.CryptSetup.{
  Handle, Call, called, activate_by_volume_key, deactivate, wipe_device, named, join_deactivation,
  tmp_device_prefix, mapped_device_path, wipe, guarded,
}

abbrev temporary : Bytes → Bytes
temporary name = tmp_device_prefix ++ name

wiping : Bytes → Result Bytes (Unit {0}) → Handle → List Call
unfolding named
wiping name wiped h = (named (wipe (mapped_device_path ++ temporary name)) wiped h).1

-- The calls begin with the activation of the device, and end with its deactivation if that
-- succeeded; a failed activation is the only call.
abbrev pub IsBracketed : Handle → Bytes → Bool → List Call → Type 0
IsBracketed h device true calls =
    (between : List Call) × (calls
      ≡ called h (activate_by_volume_key device) ∷ (between ++ called h (deactivate device) ∷ []))
IsBracketed h device false calls = calls ≡ called h (activate_by_volume_key device) ∷ []

-- On an open device, whatever the library answers: `Wipe` succeeds exactly if the activation, the
-- wiping and the deactivation all do, and the temporary device is deactivated last exactly if it
-- was activated, also where the wiping fails.
pub wipe_device_lem :
    (name : Bytes) (activated wiped deactivated : Result Bytes (Unit {0})) (h : Handle)
    → (is_ok (wipe_device name activated wiped deactivated (record { device = some h })).result
        ≡ (is_ok activated && (is_ok wiped && is_ok deactivated)))
      × IsBracketed h
          (temporary name)
          (is_ok activated)
          (wipe_device name activated wiped deactivated (record { device = some h })).calls
unfolding wipe_device guarded wiping named join_deactivation
wipe_device_lem name (err e) wiped deactivated h = (refl, refl)
wipe_device_lem name (ok u) (ok w) (ok d) h = (refl, (wiping name (ok w) h, refl))
wipe_device_lem name (ok u) (ok w) (err d) h = (refl, (wiping name (ok w) h, refl))
wipe_device_lem name (ok u) (err w) (ok d) h = (refl, (wiping name (err w) h, refl))
wipe_device_lem name (ok u) (err w) (err d) h = (refl, (wiping name (err w) h, refl))
