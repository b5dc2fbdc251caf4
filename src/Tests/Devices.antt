-- ===== src/Tests/Devices.antt =====
-- Devices, and operations that are tried again.
use geth_sev.Prelude.{
  ℕ, ◌≡◌, ◌≤◌, ◌<◌, refl, codes, Bytes, [], ◌∷◌, ◌++◌, some, none, ok, err, true, false, is_ok,
  Result, List, if◌then◌else◌, arith, ltb,
}
use geth_sev.CryptSetup.{new, wipe_device}
use geth_sev.CryptSetup.Protocol.{
  Op, op_init, op_free, op_format, op_wipe, op_uuid, observe_all, run, run_refines_protocol,
}
use geth_sev.CryptSetup.Wipe.{IsBracketed, wipe_device_lem}
use geth_sev.Retry.{Retrier, do_from}
use geth_sev.Retry.Bounded.{IsTransient, do_reaches_end, do_ends_with_context}

abbrev operations : List Op
operations =
    op_uuid (codes "A")
    ∷ op_init (ok 7)
    ∷ op_init (ok 8)
    ∷ op_format (err (codes "busy"))
    ∷ op_wipe (codes "d") (ok tt) (err (codes "io")) (ok tt)
    ∷ op_free
    ∷ op_free
    ∷ op_init (ok 9)
    ∷ []

protocol_example :
    (observe_all none (run operations new).1 ≡ some (run operations new).0.device)
    × (observe_all none (run (operations ++ op_free ∷ []) new).1 ≡ some none)
protocol_example = run_refines_protocol operations

wipe_example :
    (is_ok
        (wipe_device
          (codes "d")
          (ok tt)
          (err (codes "io"))
          (ok tt)
          (record { device = some 7 })).result
      ≡ false)
    × IsBracketed 7
        (codes "tmp-cryptsetup-d")
        true
        (wipe_device
          (codes "d")
          (ok tt)
          (err (codes "io"))
          (ok tt)
          (record { device = some 7 })).calls
wipe_example = wipe_device_lem (codes "d") (ok tt) (err (codes "io")) (ok tt) 7

-- Two attempts fail, the third succeeds; the context ends after the fifth.
abbrev third_time : Retrier Bytes
third_time = record {
  attempt = λ i. if ltb i 2 then err (codes "busy") else ok tt;
  retriable = λ e. true;
  is_done = λ i. ltb 3 i;
  context_error = codes "canceled";
}

before_third : (j : ℕ) → j < 2 → IsTransient third_time j
before_third j h = (codes "busy", ground (arith, h), refl, ground (arith, h))

retry_example : do_from third_time 3 0 ≡ some (ok tt, 3)
retry_example = do_reaches_end third_time 3 2 (ok tt) (omega arith) before_third refl

context_example :
    (result : Result Bytes (Unit {0})) × (made : ℕ) × (do_from third_time 9 0 ≡ some (result, made))
    × (made ≤ 5)
context_example = do_ends_with_context third_time 9 4 (omega arith) refl
