-- ===== src/CryptSetup/Protocol.antt =====
-- constellation/cryptsetup/cryptsetup.go: any sequence of operations against the protocol of the
-- library, by which a device is opened once, used only while it is open, and freed once.
use geth_sev.Prelude.{
  ℕ, ◌≡◌, refl, ◌∙◌, Bytes, Option, none, some, List, [], ◌∷◌, ◌++◌, Bool, Result, ok, err, ◌==◌,
  if◌then◌else◌, Option-cases, Bool-cases, bytes_eq, inl, inr, arith,
}
use geth_sev.CryptSetup.{
  Handle, Method, Call, opened, freed, called, CryptSetup, Effect, new, init, free, guarded, plain,
  named, activate_passphrase, activate_volume_key, deactivate_device, format, device_name, uuid,
  keyslot_add, keyslot_change, load, resize_device, token_get, token_set, set_state_disk_token,
  token_is_initialized, wipe_device, CryptError, tmp_device_prefix, mapped_device_path,
  device_not_open, nil_dereference, wipe, format_device, keyslot_add_by_volume_key,
  keyslot_change_by_passphrase, load_luks2, resize,
}

-- One call under the protocol, from the device that is open, if any: the device that is open
-- afterwards, or nothing for a call that the protocol forbids.
unfoldable pub observe : Option Handle → Call → Option (Option Handle)
observe none (opened h) = some (some h)
observe none (freed h) = none
observe none (called h m) = none
observe (some k) (opened h) = none
observe (some k) (freed h) = if h == k then some none else none
observe (some k) (called h m) = if h == k then some (some k) else none

unfoldable pub observe_all : Option Handle → List Call → Option (Option Handle)
unfolding observe
observe_all o [] = some o
observe_all o (c ∷ cs) = elim (observe o c) [ none ↦ none | some next ↦ observe_all next cs ]

-- An operation of the object with all that the library answers to it.
pub data Op : Type 0 where
  op_init : Result Bytes Handle → Op
  op_free : Op
  op_activate_passphrase op_activate_volume_key op_deactivate : Bytes → Result Bytes (Unit {0}) → Op
  op_format op_keyslot_add op_keyslot_change op_load op_resize : Result Bytes (Unit {0}) → Op
  op_device_name op_uuid : Bytes → Op
  op_token_get : Result Bytes Bytes → Op
  op_token_set : Result Bytes ℕ → Op
  op_set_state_disk_token : Result Bytes Bytes → Result Bytes ℕ → Op
  op_token_is_initialized : (Bytes → Result Bytes Bool) → Result Bytes Bytes → Op
  op_wipe : Bytes → Result Bytes (Unit {0}) → Result Bytes (Unit {0}) → Result Bytes (Unit {0}) → Op

-- An operation without its result.
abbrev pub done {ℓ} : {A : Type ℓ} → Effect A → CryptSetup × List Call
done e = (e.after, e.calls)

unfoldable pub step : Op → CryptSetup → CryptSetup × List Call
step (op_init found) c = done (init found c)
step op_free c = done (free c)
step (op_activate_passphrase n r) c = done (activate_passphrase n r c)
step (op_activate_volume_key n r) c = done (activate_volume_key n r c)
step (op_deactivate n r) c = done (deactivate_device n r c)
step (op_format r) c = done (format r c)
step (op_keyslot_add r) c = done (keyslot_add r c)
step (op_keyslot_change r) c = done (keyslot_change r c)
step (op_load r) c = done (load r c)
step (op_resize r) c = done (resize_device r c)
step (op_device_name n) c = done (device_name n c)
step (op_uuid u) c = done (uuid u c)
step (op_token_get r) c = done (token_get r c)
step (op_token_set r) c = done (token_set r c)
step (op_set_state_disk_token j r) c = done (set_state_disk_token j r c)
step (op_token_is_initialized read r) c = done (token_is_initialized read r c)
step (op_wipe n a w d) c = done (wipe_device n a w d c)

-- A sequence of operations: the object after them, and all calls.
unfoldable pub run : List Op → CryptSetup → CryptSetup × List Call
unfolding step
run [] c = (c, [])
run (op ∷ ops) c =
    let first : CryptSetup × List Call = step op c in
    let rest : CryptSetup × List Call = run ops first.0 in (rest.0, first.1 ++ rest.1)

-- Calls that use the open device.
abbrev IsOn : Handle → List Call → Type 0
IsOn h [] = Unit
IsOn h (opened k ∷ cs) = ⊥
IsOn h (freed k ∷ cs) = ⊥
IsOn h (called k m ∷ cs) = (k ≡ h) × IsOn h cs

observe_all-append :
    (o p : Option Handle) (cs ds : List Call)
    → observe_all o cs ≡ some p
    → observe_all o (cs ++ ds) ≡ observe_all p ds
unfolding observe_all
observe_all-append o p [] ds e = ground arith
observe_all-append o p (c ∷ cs) ds e = elim (Option-cases (observe o c)) [
  | inl n ↦ ground (arith, n, e)
  | inr s ↦ ground (arith, s.1, observe_all-append s.0 p cs ds (ground (arith, s.1, e)))
]

observe_all-IsOn :
    (h : Handle) (cs : List Call) → IsOn h cs → observe_all (some h) cs ≡ some (some h)
unfolding observe_all observe
observe_all-IsOn h [] on = refl
observe_all-IsOn h (opened k ∷ cs) on = absurd on
observe_all-IsOn h (freed k ∷ cs) on = absurd on
observe_all-IsOn h (called k m ∷ cs) on = ground (arith, on.0, observe_all-IsOn h cs on.1)

-- What one operation does is allowed, and leaves the device open that the object holds.
abbrev IsAllowed : CryptSetup → CryptSetup × List Call → Type 0
IsAllowed c e = observe_all c.device e.1 ≡ some e.0.device

guarded-IsAllowed :
    {A : Type 0} (e : CryptError) (body : Handle → Result CryptError A × List Call) (c : CryptSetup)
    → ((h : Handle) → IsOn h (body h).1)
    → IsAllowed c (done (guarded e body c))
unfolding guarded observe_all
guarded-IsAllowed e body c on = elim (Option-cases c.device) [
  | inl n ↦ ground (arith, n)
  | inr s ↦ rw (s.1) (observe_all-IsOn s.0 (body s.0).1 (on s.0))
]

named-IsOn :
    {A : Type 0} (method : Method) (returned : Result Bytes A) (h : Handle)
    → IsOn h (named method returned h).1
unfolding named
named-IsOn method (ok a) h = (refl, tt)
named-IsOn method (err e) h = (refl, (refl, tt))

IsOn-append : (h : Handle) (cs ds : List Call) → IsOn h cs → IsOn h ds → IsOn h (cs ++ ds)
IsOn-append h [] ds on rest = rest
IsOn-append h (opened k ∷ cs) ds on rest = absurd on
IsOn-append h (freed k ∷ cs) ds on rest = absurd on
IsOn-append h (called k m ∷ cs) ds on rest = (on.0, IsOn-append h cs ds on.1 rest)

init-IsAllowed : (found : Result Bytes Handle) (c : CryptSetup) → IsAllowed c (done (init found c))
unfolding init observe_all observe
init-IsAllowed (ok h) c = elim (Option-cases c.device) [
  | inl n ↦ ground (arith, n)
  | inr s ↦ ground (arith, s.1)
]
init-IsAllowed (err e) c = elim (Option-cases c.device) [
  | inl n ↦ ground (arith, n)
  | inr s ↦ ground (arith, s.1)
]

free-IsAllowed : (c : CryptSetup) → IsAllowed c (done (free c))
unfolding free observe_all observe
free-IsAllowed c = elim (Option-cases c.device) [
  | inl n ↦ ground (arith, n)
  | inr s ↦ ground (arith, s.1)
]

uuid-IsAllowed : (returned : Bytes) (c : CryptSetup) → IsAllowed c (done (uuid returned c))
unfolding uuid
uuid-IsAllowed returned c = guarded-IsAllowed device_not_open _ c λ h.
    elim (Bool-cases (bytes_eq returned [])) [
      | inl y ↦ rw y (refl, (refl, tt))
      | inr n ↦ rw n (refl, tt)
    ]

wipe-IsAllowed :
    (name : Bytes) (activated wiped deactivated : Result Bytes (Unit {0})) (c : CryptSetup)
    → IsAllowed c (done (wipe_device name activated wiped deactivated c))
unfolding wipe_device
wipe-IsAllowed name (err e) wiped deactivated c =
    guarded-IsAllowed device_not_open _ c λ h. (refl, tt)
wipe-IsAllowed name (ok u) wiped deactivated c = guarded-IsAllowed device_not_open _ c λ h. (
  refl,
  IsOn-append h _ _ (named-IsOn (wipe (mapped_device_path ++ (tmp_device_prefix ++ name))) wiped h)
      (refl, tt),
)

token-IsAllowed :
    (json : Result Bytes Bytes) (returned : Result Bytes ℕ) (c : CryptSetup)
    → IsAllowed c (done (set_state_disk_token json returned c))
unfolding set_state_disk_token observe_all
token-IsAllowed (err e) returned c = refl
token-IsAllowed (ok token) returned c = guarded-IsAllowed nil_dereference _ c λ h. (refl, tt)

step-IsAllowed : (op : Op) (c : CryptSetup) → IsAllowed c (step op c)
unfolding step activate_passphrase activate_volume_key deactivate_device format keyslot_add
    keyslot_change load resize_device device_name token_get token_set token_is_initialized plain
step-IsAllowed (op_init found) c = init-IsAllowed found c
step-IsAllowed op_free c = free-IsAllowed c
step-IsAllowed (op_activate_passphrase n r) c =
    guarded-IsAllowed device_not_open _ c λ h. (refl, tt)
step-IsAllowed (op_activate_volume_key n r) c =
    guarded-IsAllowed device_not_open _ c λ h. (refl, tt)
step-IsAllowed (op_deactivate n r) c = guarded-IsAllowed device_not_open _ c λ h. (refl, tt)
step-IsAllowed (op_format r) c =
    guarded-IsAllowed device_not_open _ c λ h. named-IsOn format_device r h
step-IsAllowed (op_keyslot_add r) c =
    guarded-IsAllowed device_not_open _ c λ h. named-IsOn keyslot_add_by_volume_key r h
step-IsAllowed (op_keyslot_change r) c =
    guarded-IsAllowed device_not_open _ c λ h. named-IsOn keyslot_change_by_passphrase r h
step-IsAllowed (op_load r) c = guarded-IsAllowed nil_dereference _ c λ h. named-IsOn load_luks2 r h
step-IsAllowed (op_resize r) c = guarded-IsAllowed device_not_open _ c λ h. named-IsOn resize r h
step-IsAllowed (op_device_name n) c = guarded-IsAllowed nil_dereference _ c λ h. (refl, tt)
step-IsAllowed (op_uuid u) c = uuid-IsAllowed u c
step-IsAllowed (op_token_get r) c = guarded-IsAllowed device_not_open _ c λ h. (refl, tt)
step-IsAllowed (op_token_set r) c = guarded-IsAllowed device_not_open _ c λ h. (refl, tt)
step-IsAllowed (op_set_state_disk_token j r) c = token-IsAllowed j r c
step-IsAllowed (op_token_is_initialized read r) c =
    guarded-IsAllowed nil_dereference _ c λ h. (refl, tt)
step-IsAllowed (op_wipe n a w d) c = wipe-IsAllowed n a w d c

run-IsAllowed : (ops : List Op) (c : CryptSetup) → IsAllowed c (run ops c)
unfolding run observe_all
run-IsAllowed [] c = refl
run-IsAllowed (op ∷ ops) c =
    observe_all-append c.device (step op c).0.device (step op c).1 (run ops (step op c).0).1
      (step-IsAllowed op c)
    ∙ run-IsAllowed ops (step op c).0

free_last : (c : CryptSetup) → observe_all c.device (run (op_free ∷ []) c).1 ≡ some none
unfolding run step free observe_all observe
free_last c = elim (Option-cases c.device) [
  | inl n ↦ ground (arith, n)
  | inr s ↦ ground (arith, s.1)
]

run-append_free :
    (ops : List Op) (c : CryptSetup)
    → observe_all c.device (run (ops ++ op_free ∷ []) c).1 ≡ some none
unfolding run
run-append_free [] c = free_last c
run-append_free (op ∷ ops) c =
    observe_all-append c.device (step op c).0.device (step op c).1
      (run (ops ++ op_free ∷ []) (step op c).0).1 (step-IsAllowed op c)
    ∙ run-append_free ops (step op c).0

-- Whatever operations follow on a new object, and whatever the library answers: all calls keep to
-- the protocol (no use of a device that is not open or was freed, no second freeing, no second
-- opening before that), the device open at the end is the one the object holds, and if `Free` is the
-- last operation no device stays open.
pub run_refines_protocol :
    (ops : List Op)
    → (observe_all none (run ops new).1 ≡ some (run ops new).0.device)
      × (observe_all none (run (ops ++ op_free ∷ []) new).1 ≡ some none)
unfolding new
run_refines_protocol ops = (run-IsAllowed ops new, run-append_free ops new)
