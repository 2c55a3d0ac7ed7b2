-- ===== src/Store/Keys.antt =====
-- The keys and identifiers that the code builds by joining texts.
use Prim.Native.String.{String, ◌++◌}
use mathlib.Core.Path.{◌≡◌}
use text.Mathlib.TextLemmas.{append_cancel_left}
use ctech_wallet.Domain.Model.{WalletType, wallet_type_text}

-- wallet.IdemPrefix + idemKey
abbrev pub idem_pk : String → String
idem_pk key = "IDEM#" ++ key

-- repositories.markerPK
unfoldable pub marker_pk : String → WalletType → String
marker_pk user type = (("USER#" ++ user) ++ "#") ++ wallet_type_text type

-- wallet.WalletPrefix + id.New()
unfoldable pub wallet_key : String → String
wallet_key fresh = "WALLET#" ++ fresh

-- The sort key of a ledger entry: its time and its identifier.
unfoldable pub entry_sk : String → String → String
entry_sk ts id = (ts ++ "#") ++ id

-- Two idempotency keys with one guard row are one key.
pub idem_pk-injective : (a b : String) → idem_pk a ≡ idem_pk b → a ≡ b
idem_pk-injective a b h = append_cancel_left "IDEM#" a b h
