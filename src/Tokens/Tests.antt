-- ===== src/Tokens/Tests.antt =====
-- A small token store for Chess-Backend/src/models/AuthToken.js.
use end_to_end_kubernetes_ch.Base.{◌≡◌, refl, none, some, [], ◌∷◌, arith}
use end_to_end_kubernetes_ch.Tokens.{
  RefreshRow, Vault, rotate_refresh_token, replace_token, insert_refresh, revoke_family,
}
use end_to_end_kubernetes_ch.Tokens.Rotation.{rotate_refresh_token-reuse}

abbrev pub login_row : RefreshRow
login_row = record {
  id = 1;
  user_id = 5;
  family_id = 9;
  token_hash = 111;
  expires_at = 1000;
  revoked_at = none;
  consumed_at = none;
  replaced_by = none;
}

abbrev pub vault : Vault
vault = record {
  refresh = login_row ∷ [];
  account =
      record {
        id = 1;
        user_id = 5;
        purpose = 0;
        token_hash = 77;
        expires_at = 500;
        consumed_at = none;
      }
      ∷ [];
  users = 5 ∷ [];
  next_id = 2;
}

abbrev pub newest : RefreshRow
newest = record {
  id = 2;
  user_id = 5;
  family_id = 9;
  token_hash = 222;
  expires_at = 2592000010;
  revoked_at = none;
  consumed_at = none;
  replaced_by = none;
}

abbrev pub rotated : Vault
rotated = record vault {
  refresh = record login_row { consumed_at = some 10; replaced_by = some 222 } ∷ newest ∷ [];
  next_id = 3;
}

-- A thief presents the old token, and the newest is then refused too.
rotate_refresh_token-reuse_example :
    (rotate_refresh_token 111 333 20 rotated ≡ some (revoke_family 9 20 rotated, none))
    × (rotate_refresh_token 222 444 30 (revoke_family 9 20 rotated)
        ≡ some (revoke_family 9 20 rotated, none))
unfolding rotate_refresh_token replace_token insert_refresh revoke_family
rotate_refresh_token-reuse_example =
    rotate_refresh_token-reuse 111 222 10 444 333 20 222 30 vault rotated 5 login_row
      (record newest { revoked_at = some 20 }) refl refl (omega arith) refl refl
