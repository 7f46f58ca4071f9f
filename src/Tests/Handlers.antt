-- ===== src/Tests/Handlers.antt =====
-- The Merchant service with its cache of handlers, on the small merchant's stand.
use payme_mock.Base.{◌≡◌, refl, some, List, [], ◌∷◌}
use payme_mock.Base.Int.{ℤ, pos}
use payme_mock.Base.Text.{text}
use payme_mock.Kernel.Effect.{ok}
use payme_mock.Kernel.Http.{Request}
use payme_mock.Merchant.Http.{Reply}
use payme_mock.Programs.Handlers.{Dependencies, load_settings}
use payme_mock.Programs.Handlers.Cached.{
  ProfilesKept, answers_cached, answers_fresh, answers_cached-fresh,
}
use payme_mock.Tests.Shop.{Shop, shop_ports, open_shop}
use payme_mock.Tests.Http.{json, merchant_decoders, signed}

-- One profile, which every identifier names.
abbrev service : Dependencies Shop
service = record {
  ports = λ scope. shop_ports;
  json = json Reply;
  decoders = merchant_decoders;
  profiles = record { raw = λ id w. ok (text "{}"); unmarshal = λ onto raw. some onto };
}

profiles_kept : ProfilesKept service
unfolding load_settings
profiles_kept r w id = refl

abbrev in_stand : ℤ → Request
in_stand config = record signed {
  sandbox = some (record {
    id = pos 1;
    slug = text "demo";
    merchant_id = text "m1";
    merchant_name = [];
    key = text "secret";
    test_key = [];
    config_id = config;
    kind = text "topup";
  });
}

abbrev deliveries : List Request
deliveries = in_stand (pos 1) ∷ in_stand (pos 0) ∷ in_stand (pos 1) ∷ []

answers_cached-fresh_example :
    answers_cached service deliveries [] open_shop ≡ answers_fresh service deliveries open_shop
answers_cached-fresh_example = answers_cached-fresh service deliveries open_shop profiles_kept
