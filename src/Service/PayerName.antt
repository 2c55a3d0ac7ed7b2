-- ===== src/Service/PayerName.antt =====
-- api/internal/services/payer_name.go: the payer's name against the name that KYC holds.
use ctech_wallet.Prelude.{String, Bool, false, ◌&&◌, ◌||◌, List, [], ◌∷◌, if◌then◌else◌, ◌==◌}
use ctech_wallet.Service.{Env}

-- payerNameMatches and nameTokens, on the folded words of the two names.
abbrev last_word : String → List String → String
last_word w [] = w
last_word w (x ∷ xs) = last_word x xs

unfoldable pub words_match : List String → List String → Bool
words_match [] bs = false
words_match (a ∷ as') [] = false
words_match (a ∷ []) (b ∷ []) = a == b
words_match (a ∷ []) (b ∷ c ∷ bs) = false
words_match (a ∷ c ∷ as') (b ∷ []) = false
words_match (a ∷ c ∷ as') (b ∷ e ∷ bs) = a == b && last_word c as' == last_word e bs

-- nameConnectors
abbrev pub is_connector : String → Bool
is_connector w = w == "de" || w == "da" || w == "do" || w == "das" || w == "dos" || w == "e"

unfoldable pub without_connectors : List String → List String
without_connectors [] = []
without_connectors (w ∷ ws) =
    let rest = without_connectors ws in if is_connector w then rest else w ∷ rest

module _ (env : Env) where
  unfoldable pub payer_name_matches : String → String → Bool
  unfolding words_match without_connectors
  payer_name_matches payer kyc =
      words_match (without_connectors (env.name_words payer))
        (without_connectors (env.name_words kyc))
