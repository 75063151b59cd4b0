-- ===== src/Tests/Crypto.antt =====
-- Sealing and opening at a concrete key, nonce and payload.
use worker_hive_relay.Prelude.{
  String, ◌≡◌, refl, ap, true, false, none, some, ◌∷◌, ◌++◌, Bytes, length, ◌=ₛ◌, utf8, utf8_char,
  lower, strip,
}
use worker_hive_relay.Exec.{ok, fail, crypto_error}
use worker_hive_relay.Value.{Fields, empty, field, num, str, obj}
use worker_hive_relay.Crypto.{
  version, magic_bytes, write_magic, aad_for, aad_with_magic, seal, open_blob, load_key,
}
use worker_hive_relay.Crypto.Framing.{open_blob-seal}
use worker_hive_relay.Crypto.Binding.{open_blob-seal_moved}
use worker_hive_relay.Tests.{host, codec, codec-IsAead, key, nonce, dumps, loads, codes}

abbrev payload : Fields
payload = field "status" (str "done") (field "n" (num 5) empty)

reads_payload : loads (dumps payload) ≡ some (obj payload)
unfolding dumps loads
reads_payload = refl

open_blob-seal_example :
    (blob : Bytes) × (seal codec host.env nonce payload key (some (aad_for "terminal" "j")) none
      ≡ ok blob)
    × (open_blob codec blob key (some (aad_for "terminal" "j")) ≡ ok (obj payload))
open_blob-seal_example =
    open_blob-seal codec codec-IsAead host.env nonce payload key (some (aad_for "terminal" "j"))
      none refl refl reads_payload

-- The blob of the payload for the job "j".
abbrev pub blob : Bytes
blob =
    let aad = aad_with_magic magic_bytes (some (aad_for "terminal" "j")) in
    magic_bytes ++ (version ∷ (nonce ++ (length aad ∷ (aad ++ dumps payload))))

sealed : seal codec host.env nonce payload key (some (aad_for "terminal" "j")) none ≡ ok blob
unfolding seal aad_for aad_with_magic write_magic dumps utf8 utf8_char lower strip
sealed = refl

opened : open_blob codec blob key (some (aad_for "terminal" "j")) ≡ ok (obj payload)
unfolding open_blob aad_for aad_with_magic dumps loads utf8 utf8_char
opened = refl

other_job : Path String "terminal" "terminal" × Path String "j" "k" → ⊥
other_job e = absurd (let clash : true ≡ false = ap (λ x. "j" =ₛ x) e.1 in cc clash)

open_blob-seal_moved_example :
    (m : String) × (open_blob codec blob key (some (aad_for "terminal" "k")) ≡ fail crypto_error m)
open_blob-seal_moved_example =
    open_blob-seal_moved codec codec-IsAead host.env nonce payload key none "terminal" "terminal"
      "j" "k" blob refl refl refl refl other_job sealed

abbrev sample_key : String
sample_key = "0123456789abcdef0123456789abcdef"

reads_key : load_key codec host.env (some sample_key) ≡ ok (codes sample_key)
unfolding load_key codes
reads_key = refl
