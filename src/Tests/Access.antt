-- ===== src/Tests/Access.antt =====
-- The checks before a money route, for a token of the first party and for delegated ones.
use ctech_wallet.Prelude.{◌≡◌, ◌↔◌, refl, none, some, [], ◌∷◌}
use ctech_wallet.Api.Access.{
  Claims, forbidden, kyc_not_verified, refused_with, Around, deposit_route, withdrawal_route,
  Passes, IsEntitled, money_route_iff,
}

abbrev delegated : Claims
delegated = record {
  sub = "ana";
  sid = "s1";
  kyc_level = "enhanced";
  scopes = "profile" ∷ "wallet:deposits:write" ∷ [];
}

-- Nothing else stands in the way, but the second factor is old.
abbrev around : Around
around = record {
  limit_money = λ c. none;
  recent_mfa = λ c. some (refused_with 403);
  fresh = λ c. none;
  idempotent = λ c. none;
}

money_route_iff_example :
    let c = some delegated in
    let others =
      Passes (around.limit_money c) × Passes (around.fresh c) × Passes (around.idempotent c) in
    (Passes (deposit_route around c) ↔ (others × IsEntitled "wallet:deposits:write" delegated))
    × (Passes (withdrawal_route around c)
        ↔ (others × Passes (around.recent_mfa c) × IsEntitled "wallet:withdrawals:write" delegated))
money_route_iff_example = money_route_iff around delegated

deposits_allowed : deposit_route around (some delegated) ≡ none
unfolding deposit_route
deposits_allowed = refl

withdrawals_refused : withdrawal_route around (some delegated) ≡ some forbidden
unfolding withdrawal_route
withdrawals_refused = refl

abbrev first_party : Claims
first_party = record delegated { scopes = "profile" ∷ [] }

second_factor_wanted : withdrawal_route around (some first_party) ≡ some (refused_with 403)
unfolding withdrawal_route
second_factor_wanted = refl

unverified_refused :
    deposit_route around (some (record delegated { kyc_level = "basic" })) ≡ some kyc_not_verified
unfolding deposit_route
unverified_refused = refl
