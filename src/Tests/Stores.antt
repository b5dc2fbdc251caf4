-- ===== src/Tests/Stores.antt =====
-- Keys in memory, wrapped by a number in front.
use geth_sev.Prelude.{◌≡◌, refl, Bytes, codes, List, [], ◌∷◌, some, none, Result, ok, err}
use geth_sev.Kms.{Wrapper, memfs, DekPool, get_dek}
use geth_sev.Kms.Keys.{IsWrapper, Request, ask, run, get_dek_again}
use geth_sev.Kms.Memory.{memfs-IsStorage}

unwrap_tail : Bytes → Result Bytes Bytes
unwrap_tail [] = err []
unwrap_tail (n ∷ plain) = ok plain

abbrev prefixing : Wrapper
prefixing = record { unwrap = unwrap_tail; wrap = λ nonce plain. ok (nonce ∷ plain) }

prefixing-IsWrapper : IsWrapper prefixing
unfolding unwrap_tail
prefixing-IsWrapper nonce plain [] h = cc
prefixing-IsWrapper nonce plain (n ∷ encrypted) h = cc

abbrev request : Bytes → Bytes → Request
request key_id random = record { key_id = key_id; nonce = 5; random = ok random }

abbrev first : Request
first = request (codes "a") (1 ∷ 2 ∷ [])

abbrev others : List Request
others = request (codes "b") (3 ∷ []) ∷ request (codes "a") (4 ∷ []) ∷ []

abbrev stored : DekPool
stored = run memfs prefixing others (ask memfs prefixing first []).after

again_example :
    ask memfs prefixing (request (codes "a") (9 ∷ [])) stored
    ≡ record { dek = some (1 ∷ 2 ∷ []); failure = none; after = stored }
unfolding get_dek memfs
again_example =
    get_dek_again memfs prefixing memfs-IsStorage prefixing-IsWrapper first
      (request (codes "a") (9 ∷ [])) others [] (1 ∷ 2 ∷ []) refl refl refl
