-- ===== src/CryptSetup.antt =====
-- constellation/cryptsetup/cryptsetup.go: the object that manages one device of libcryptsetup. The
-- library is not part of the model: an operation takes what its calls return, and gives its result,
-- the object afterwards, and the calls it made, in order.
pub mod Protocol
pub mod Wipe
use geth_sev.Prelude.{
  ℕ, Bytes, codes, bytes_eq, to_lower, Option, none, some, List, [], ◌∷◌, ◌++◌, Bool, true, false,
  Result, ok, err, map_err, if◌then◌else◌,
}

-- A device as the library knows it.
abbrev pub Handle : Type 0
Handle = ℕ

-- The methods of `cryptDevice`; the ones that name a mapped device carry the name.
pub data Method : Type 0 where
  activate_by_passphrase activate_by_volume_key deactivate wipe : Bytes → Method
  get_device_name get_uuid keyslot_add_by_volume_key keyslot_change_by_passphrase : Method
  resize token_json_get token_json_set format_device load_luks2 : Method

pub data Call : Type 0 where
  opened freed : Handle → Call
  called : Handle → Method → Call

pub data CryptError : Type 0 where
  device_not_open device_already_open no_uuid : CryptError
  init_failed call_failed marshaling : Bytes → CryptError
  joined : CryptError → CryptError → CryptError
  nil_dereference : CryptError

-- `CryptSetup`, without the two functions that open a device.
pub record CryptSetup : Type 0 where
  pub device : Option Handle

-- What an operation does.
pub record Effect {ℓ} (A : Type ℓ) : Type ℓ where
  pub result : Result CryptError A
  pub after : CryptSetup
  pub calls : List Call

-- `New`
unfoldable pub new : CryptSetup
new = record { device = none }

-- `Init` and `InitByName`, at the device that the library opens
unfoldable pub init : Result Bytes Handle → CryptSetup → Effect (Unit {0})
init found c = elim c.device [
  | some h ↦ record { result = err device_already_open; after = c; calls = [] }
  | none ↦ elim found [
    | err e ↦ record { result = err (init_failed e); after = c; calls = [] }
    | ok h ↦ record { result = ok tt; after = record { device = some h }; calls = opened h ∷ [] }
  ]
]

-- `Free`
unfoldable pub free : CryptSetup → Effect (Unit {0})
free c = elim c.device [
  | none ↦ record { result = ok tt; after = c; calls = [] }
  | some h ↦ record { result = ok tt; after = record { device = none }; calls = freed h ∷ [] }
]

-- The operations that first check for a device: `if c.device == nil { return errDeviceNotOpen }`.
guarded {ℓ} :
    {A : Type ℓ} → CryptError → (Handle → Result CryptError A × List Call) → CryptSetup → Effect A
guarded nil_error body c = elim c.device [
  | none ↦ record { result = err nil_error; after = c; calls = [] }
  | some h ↦ record { result = (body h).0; after = c; calls = (body h).1 }
]

-- One call whose error is wrapped.
plain {ℓ} : {A : Type ℓ} → Method → Result Bytes A → Handle → Result CryptError A × List Call
plain method returned h = (map_err call_failed returned, called h method ∷ [])

-- One call whose error is wrapped with the device's name, which is one more call.
named {ℓ} : {A : Type ℓ} → Method → Result Bytes A → Handle → Result CryptError A × List Call
named method returned h = elim returned [
  | ok a ↦ (ok a, called h method ∷ [])
  | err e ↦ (err (call_failed e), called h method ∷ called h get_device_name ∷ [])
]

-- `ActivateByPassphrase`
unfoldable pub activate_passphrase :
    Bytes → Result Bytes (Unit {0}) → CryptSetup → Effect (Unit {0})
unfolding guarded plain
activate_passphrase device_name returned =
    guarded device_not_open (plain (activate_by_passphrase device_name) returned)

-- `ActivateByVolumeKey`
unfoldable pub activate_volume_key :
    Bytes → Result Bytes (Unit {0}) → CryptSetup → Effect (Unit {0})
unfolding guarded plain
activate_volume_key device_name returned =
    guarded device_not_open (plain (activate_by_volume_key device_name) returned)

-- `Deactivate`
unfoldable pub deactivate_device : Bytes → Result Bytes (Unit {0}) → CryptSetup → Effect (Unit {0})
unfolding guarded plain
deactivate_device device_name returned =
    guarded device_not_open (plain (deactivate device_name) returned)

-- `Format`
unfoldable pub format : Result Bytes (Unit {0}) → CryptSetup → Effect (Unit {0})
unfolding guarded named
format returned = guarded device_not_open (named format_device returned)

-- `GetDeviceName`, which does not check for a device
unfoldable pub device_name : Bytes → CryptSetup → Effect Bytes
unfolding guarded plain
device_name returned = guarded nil_dereference (plain get_device_name (ok returned))

-- `GetUUID`
unfoldable pub uuid : Bytes → CryptSetup → Effect Bytes
unfolding guarded bytes_eq to_lower
uuid returned = guarded device_not_open (λ h.
    if bytes_eq returned []
    then (err no_uuid, called h get_uuid ∷ called h get_device_name ∷ [])
    else (ok (to_lower returned), called h get_uuid ∷ []))

-- `KeyslotAddByVolumeKey`
unfoldable pub keyslot_add : Result Bytes (Unit {0}) → CryptSetup → Effect (Unit {0})
unfolding guarded named
keyslot_add returned = guarded device_not_open (named keyslot_add_by_volume_key returned)

-- `KeyslotChangeByPassphrase`
unfoldable pub keyslot_change : Result Bytes (Unit {0}) → CryptSetup → Effect (Unit {0})
unfolding guarded named
keyslot_change returned = guarded device_not_open (named keyslot_change_by_passphrase returned)

-- `LoadLUKS2`, which does not check for a device
unfoldable pub load : Result Bytes (Unit {0}) → CryptSetup → Effect (Unit {0})
unfolding guarded named
load returned = guarded nil_dereference (named load_luks2 returned)

-- `Resize`
unfoldable pub resize_device : Result Bytes (Unit {0}) → CryptSetup → Effect (Unit {0})
unfolding guarded named
resize_device returned = guarded device_not_open (named resize returned)

-- `TokenJSONGet`
unfoldable pub token_get : Result Bytes Bytes → CryptSetup → Effect Bytes
unfolding guarded plain
token_get returned = guarded device_not_open (plain token_json_get returned)

-- `TokenJSONSet`
unfoldable pub token_set : Result Bytes ℕ → CryptSetup → Effect ℕ
unfolding guarded plain
token_set returned = guarded device_not_open (plain token_json_set returned)

-- `SetConstellationStateDiskToken`, which does not check for a device, at the marshaled token
unfoldable pub set_state_disk_token :
    Result Bytes Bytes → Result Bytes ℕ → CryptSetup → Effect (Unit {0})
unfolding guarded plain
set_state_disk_token json returned c = elim json [
  | err e ↦ record { result = err (marshaling e); after = c; calls = [] }
  | ok token ↦
      guarded nil_dereference
        (plain token_json_set (elim returned [ ok id ↦ ok tt | err e ↦ err e ])) c
]

-- `ConstellationStateDiskTokenIsInitialized`, which does not check for a device; the reader gives
-- the flag of a token.
unfoldable pub token_is_initialized :
    (Bytes → Result Bytes Bool) → Result Bytes Bytes → CryptSetup → Effect Bool
unfolding guarded
token_is_initialized read returned = guarded nil_dereference (λ h. (
  ok (elim returned [
    | err e ↦ false
    | ok json ↦ elim (read json) [ err e ↦ false | ok initialized ↦ initialized ]
  ]),
  called h token_json_get ∷ [],
))

abbrev tmp_device_prefix : Bytes
tmp_device_prefix = codes "tmp-cryptsetup-"

abbrev mapped_device_path : Bytes
mapped_device_path = codes "/dev/mapper/"

-- The error of the deferred deactivation is joined to the one there is.
join_deactivation :
    Result CryptError (Unit {0}) → Result Bytes (Unit {0}) → Result CryptError (Unit {0})
join_deactivation r (ok u) = r
join_deactivation (ok u) (err d) = err (call_failed d)
join_deactivation (err e) (err d) = err (joined e (call_failed d))

-- `Wipe`, at what the activation, the wiping and the deactivation return; the progress callback only
-- logs.
unfoldable pub wipe_device :
    Bytes
    → Result Bytes (Unit {0})
    → Result Bytes (Unit {0})
    → Result Bytes (Unit {0})
    → CryptSetup
    → Effect (Unit {0})
unfolding guarded named join_deactivation
wipe_device name activated wiped deactivated = guarded device_not_open (λ h.
    let tmp_device : Bytes = tmp_device_prefix ++ name in
    let body : Result CryptError (Unit {0}) × List Call =
      named (wipe (mapped_device_path ++ tmp_device)) wiped h in
    elim activated [
      | err e ↦ (err (call_failed e), called h (activate_by_volume_key tmp_device) ∷ [])
      | ok u ↦ (
        join_deactivation body.0 deactivated,
        called h (activate_by_volume_key tmp_device)
            ∷ (body.1 ++ called h (deactivate tmp_device) ∷ []),
      )
    ])
