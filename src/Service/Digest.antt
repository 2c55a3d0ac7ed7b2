-- ===== src/Service/Digest.antt =====
-- The texts that the flows build for keys and identifiers, in api/internal/services/wallet.go.
use Prim.Native.String.{String, ◌++◌, slice}
use ctech_wallet.Prelude.Int.{ℤ}
use ctech_wallet.Domain.Model.{EntryType, entry_type_text}
use mathlib.Core.List as L
use ctech_wallet.Service.{Env}

-- reqHash: a fingerprint of a reference and an amount.
unfoldable pub req_hash : Env → String → ℤ → String
req_hash env ref amount = env.sha256_hex ((ref ++ "|") ++ env.decimal amount)

-- depositTxID
unfoldable pub deposit_tx_id : Env → String → String → String
deposit_tx_id env user key = "dep" ++ slice (env.sha256_hex ((user ++ "\0") ++ key)) 0 30

unfoldable pub withdrawal_id : String → String → String
withdrawal_id user key = (("withdraw#" ++ user) ++ "#") ++ key

unfoldable pub hold_id : String → String → String
hold_id user key = (("hold#" ++ user) ++ "#") ++ key

-- The idempotency key of an entry type for a user and a client's key.
unfoldable pub entry_key : EntryType → String → String → String
entry_key type user key = ((entry_type_text type ++ "#") ++ user ++ "#") ++ key

unfoldable pub prefixed : String → String → String
prefixed prefix text = prefix ++ text

-- strings.Join(ids, ","), after a reference and "#".
unfoldable pub joined_ids : L.List String → String
joined_ids L.[] = ""
joined_ids (L.◌∷◌ id L.[]) = id
joined_ids (L.◌∷◌ id ids) = (id ++ ",") ++ joined_ids ids

unfoldable pub joined : String → L.List String → String
unfolding joined_ids
joined ref ids = (ref ++ "#") ++ joined_ids ids
