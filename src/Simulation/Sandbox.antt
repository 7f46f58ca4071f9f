-- ===== src/Simulation/Sandbox.antt =====
-- internal/context/simulation/sandbox/domain/sandbox.go: a stand with its credentials. The generator
-- of credentials is a port over a world; an error is `none`, and is ErrInvalid.
use payme_mock.Base.{
  ℕ, Bool, true, false, not, ◌&&◌, ◌||◌, Option, none, some, [], ◌∷◌, ◌++◌, map, ◌==◌, leb,
  if◌then◌else◌,
}
use payme_mock.Base.Int.{ℤ, pos}
use payme_mock.Base.Text.{Text, text, length, is_empty}
use payme_mock.Base.Strings.{trim_space, trim_suffix, to_lower}

pub record Sandbox : Type 0 where
  pub id : ℤ
  pub slug : Text
  pub name : Text
  pub merchant_id : Text
  pub key : Text
  pub test_key : Text
  pub config_id : Option ℤ
  pub archived : Bool
  pub kind : Text
  pub merchant_name : Text
  pub merchant_group : Text

pub record CredentialGenerator (W : Type 0) : Type 0 where
  pub merchant_id : W → Text × W
  pub key : W → Text × W

abbrev slug_end : ℕ → Bool
slug_end c = (leb b'a' c && leb c b'z') || (leb b'0' c && leb c b'9')

abbrev slug_inner : ℕ → Bool
slug_inner c = slug_end c || c == b'-'

-- What stands between the first letter and the last, and the last.
slug_rest : Text → Bool
slug_rest [] = false
slug_rest (c ∷ []) = slug_end c
slug_rest (c ∷ d ∷ s) = slug_inner c && slug_rest (d ∷ s)

-- `slugPattern`: ^[a-z0-9][a-z0-9-]{0,38}[a-z0-9]$
unfoldable pub valid_slug : Text → Bool
unfolding slug_rest
valid_slug [] = false
valid_slug (c ∷ s) = slug_end c && slug_rest s && leb (length s) 39

-- `New`
unfoldable pub new : {W : Type 0} → Text → Text → CredentialGenerator W → W → Option Sandbox × W
unfolding valid_slug trim_space
new slug name gen w =
    let plain = trim_space (map to_lower slug) in
    let (id, w1) = gen.merchant_id w in
    let (key, w2) = gen.key w1 in
    let (test_key, w3) = gen.key w2 in
    if not (valid_slug plain) then (none, w) else (
      some (record {
        id = pos 0;
        slug = plain;
        name = if is_empty (trim_space name) then plain else name;
        merchant_id = id;
        key = key;
        test_key = test_key;
        config_id = none;
        archived = false;
        kind = [];
        merchant_name = [];
        merchant_group = [];
      }),
      w3,
    )

-- `EndpointURL`
unfoldable pub endpoint_url : Sandbox → Text → Text
unfolding trim_suffix
endpoint_url s base = trim_suffix 47 base ++ (text "/s/" ++ (s.slug ++ text "/payme/merchant"))

-- `SubscribeURL`
unfoldable pub subscribe_url : Sandbox → Text → Text
unfolding trim_suffix
subscribe_url s base = trim_suffix 47 base ++ (text "/s/" ++ (s.slug ++ text "/api"))

-- `KeyFor`
unfoldable pub key_for : Sandbox → Bool → Text
key_for s true = s.test_key
key_for s false = s.key
