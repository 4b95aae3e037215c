-- ===== src/Tests/Srr.antt =====
-- A save and a restore on concrete values, with a concrete encryption.
use fty_security_wallet.Base.{
  ℕ, String, ◌^^◌, false, some, none, List, [], ◌∷◌, map, ◌+◌, ok, ◌≡◌, ◌⊎◌, refl, returns,
}
use fty_security_wallet.Base.StringMap
use fty_security_wallet.Base.StringSet
use fty_security_wallet.External.{External, read_string}
use fty_security_wallet.External.Laws.{Laws}
use fty_security_wallet.Secw.Body.{type_of, public_info, private_info}
use fty_security_wallet.Secw.Document.{header_info, info_with_secret}
use fty_security_wallet.Secw.Portfolio.{Portfolio, new_portfolio, portfolio_info}
use fty_security_wallet.Secw.Portfolio.Marking.{mark_portfolio}
use fty_security_wallet.Secw.Helpers.{serialize}
use fty_security_wallet.Secw.Configuration.{
  union, read_usage, read_client, read_all, read_member, usages_by_id, all_types,
  read_configuration,
}
use fty_security_wallet.Secw.Wallet.{
  add_missing, wallet_info, load_configurations, load_configuration_file,
}
use fty_security_wallet.Secw.OpensslWrapper.{
  random_vector, base64_encode, generate_sha256_digest, aes256cbc_encrypt, encrypt, decrypt,
}
use fty_security_wallet.Secw.Srr.Documents.{srr_info, sealed_info}
use fty_security_wallet.Secw.Srr.Portfolios.{
  srr_infos, portfolio_node, portfolio_srr_info, load_portfolio_from_srr,
}
use fty_security_wallet.Secw.Srr.Portfolios.RoundTrip.{
  IsRestored, load_portfolio_from_srr-portfolio_srr_info,
}
use fty_security_wallet.Secw.Srr.Checks.{get_hardware_uuid}
use fty_security_wallet.Secw.Srr.Wallet.{
  save_node, portfolio_srr_infos, get_srr_save_data, restore_srr_data,
}
use fty_security_wallet.Secw.Srr.Wallet.Checked.{restore_srr_data_checked}
use fty_security_wallet.Secw.Srr.Requests.{
  success, save_text, save_feature, save_features, handle_save, handle_restore,
}
use fty_security_wallet.Secw.Srr.Requests.RoundTrip.{reply, handle_restore-handle_save}
use fty_security_wallet.Tests.Tree.{Tree, nothing, member, label, host, host-Laws, host-IsWritable}
use fty_security_wallet.Tests.World.{
  router, default_configuration, default_portfolio, world, default-IsSound,
}
use fty_security_wallet.Tests.Loading.{configuration_tree}
use fty_security_wallet.Tests.Chars.{of_code}
use fty_security_wallet.Tests.Bytes.{bytes_of, bytes_of_code, chars}
use fty_security_wallet.Tests.Openssl.{zeros, digits, test_openssl, openssl_laws}

abbrev active : String
active = "1.0"

-- what `encrypt` makes of a text here
abbrev sealed : String → String
sealed plain = chars (digits (zeros 16)) ^^ (":" ^^ chars (digits (0 ∷ bytes_of plain)))

abbrev release_tree : Tree
release_tree = member "release-details" (member "uuid" (label "uuid-1") nothing) nothing

abbrev router_tree : Tree
router_tree = sealed_info ⦃e = host []⦄ router (sealed "private")

abbrev default_tree : Tree
default_tree = portfolio_node ⦃e = host []⦄ "default" (router_tree ∷ [])

abbrev save_tree : Tree
save_tree = save_node ⦃e = host []⦄ (sealed "passphrase") (sealed "uuid-1") (default_tree ∷ [])

abbrev known : List (Tree × String)
known =
    (save_tree, "the save")
    ∷ (private_info ⦃e = host []⦄ router.body, "private")
    ∷ (release_tree, "release")
    ∷ (configuration_tree, "configuration")
    ∷ (wallet_info ⦃e = host []⦄ (default_portfolio ∷ []), "the portfolios")
    ∷ []

instance abbrev saved_host : External
saved_host = host known

laws : Laws ⦃e = saved_host⦄
laws = host-Laws known (refl, (refl, (refl, (refl, (refl, tt))))) ("no tree", refl)

restore_srr_data_checked_example :
    ((restore_srr_data none world.wallet "release" save_tree "password" active world).1 ≡ world)
    ⊎ ((active ≡ "1.0")
        × (received : String) × (read_string "check_passphrase" save_tree ≡ returns received)
        × (decrypt received "password" ≡ ok "password"))
restore_srr_data_checked_example =
    restore_srr_data_checked none world.wallet "release" save_tree "password" active world

seals : (plain : String) (n : ℕ) → encrypt plain "passphrase" n ≡ (ok (sealed plain), n + 1)
unfolding encrypt random_vector base64_encode generate_sha256_digest aes256cbc_encrypt
seals plain n = refl

serializes : serialize (private_info router.body) ≡ ok "private"
unfolding serialize private_info
serializes = refl

writes : (n : ℕ) → srr_info router "passphrase" n ≡ (ok router_tree, n + 1)
unfolding srr_info public_info header_info type_of
writes n = rw serializes (rw (seals "private" n) refl)

writes_portfolio :
    (n : ℕ) → portfolio_srr_info default_portfolio "passphrase" n ≡ (ok default_tree, n + 1)
unfolding portfolio_srr_info srr_infos StringMap.values
writes_portfolio n = rw (writes n) refl

load_portfolio_from_srr-portfolio_srr_info_example :
    (r : Portfolio) × (load_portfolio_from_srr default_tree "passphrase" false
        (new_portfolio "printers")
      ≡ (ok tt, r))
    × IsRestored false default_portfolio r
load_portfolio_from_srr-portfolio_srr_info_example =
    load_portfolio_from_srr-portfolio_srr_info laws openssl_laws "passphrase" refl false
      default_portfolio (new_portfolio "printers") 0 1 default_tree (default-IsSound saved_host)
      (writes_portfolio 0)

knows : get_hardware_uuid "release" ≡ ok "uuid-1"
unfolding get_hardware_uuid
knows = refl

collects : get_srr_save_data "release" "passphrase" world.wallet 0 ≡ (ok save_tree, 3)
unfolding get_srr_save_data portfolio_srr_infos
collects =
    rw (seals "passphrase" 0) (rw knows (rw (seals "uuid-1" 1) (rw (writes_portfolio 2) refl)))

prints : serialize save_tree ≡ ok "the save"
unfolding serialize chars digits bytes_of bytes_of_code of_code public_info header_info type_of
prints = refl

saves :
    handle_save "release" "passphrase" world.wallet ("security-wallet" ∷ []) 0
    ≡ (ok (("security-wallet", reply "the save") ∷ []), 3)
unfolding handle_save save_features save_feature save_text StringMap.insert
saves = rw collects (rw prints refl)

configured :
    load_configuration_file (some "configuration") ≡ ok (("default", default_configuration) ∷ [])
unfolding load_configuration_file load_configurations read_configuration read_member read_all
    read_usage read_client usages_by_id all_types union StringSet.of_list StringSet.insert
    StringMap.member StringMap.insert
configured = refl

written :
    saved_host.to_json_beautified (wallet_info (default_portfolio ∷ [])) ≡ returns "the portfolios"
unfolding wallet_info portfolio_info StringMap.values info_with_secret private_info public_info
    type_of
written = refl

handle_restore-handle_save_example :
    handle_restore
      (some "configuration")
      world.wallet
      "release"
      "passphrase"
      (("security-wallet", (reply "the save").feature) ∷ [])
      (record world { wallet = record world.wallet { portfolios = [] } })
    ≡ (
      ok (("security-wallet", success) ∷ []),
      record world {
        wallet = record {
          configurations = ("default", default_configuration) ∷ [];
          portfolios =
              add_missing
                (StringMap.keys (("default", default_configuration) ∷ []))
                (map mark_portfolio (default_portfolio ∷ []));
        };
        database = some "the portfolios";
      },
    )
handle_restore-handle_save_example =
    handle_restore-handle_save laws openssl_laws (host-IsWritable known) "release" "passphrase"
      "the save" "the portfolios" world.wallet 0 3 (some "configuration")
      (("default", default_configuration) ∷ []) world.wallet
      (record world { wallet = record world.wallet { portfolios = [] } })
      (default-IsSound saved_host, tt) saves configured written
