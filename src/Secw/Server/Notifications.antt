-- ===== src/Secw/Server/Notifications.antt =====
-- The notifications of the server: each is built and handed to the publisher in a `try` whose
-- handlers only log.
use fty_security_wallet.Base.{String, not, ◌∷◌, Result, ok, err, hang, ◌>>=◌}
use fty_security_wallet.External.{External}
use fty_security_wallet.Secw.Error.{Exn}
use fty_security_wallet.Secw.Document.{
  Document, info_without_secret, is_non_secret_equals, is_secret_equals,
}
use fty_security_wallet.Secw.Helpers.{serialize}
use fty_security_wallet.Secw.Server.{Handler}

-- the `try` around the publication
unfoldable pub publish : Result Exn String → Handler (Unit {0})
publish (ok message) world = (ok tt, record world { published = message ∷ world.published })
publish (err _) world = (ok tt, world)
publish hang world = (hang, world)

module _ ⦃e : External⦄ where
  open e use {Si, empty_si, add_member, of_string, of_bool}

  unfoldable pub create_message : String → Document → Result Exn String
  create_message portfolio new_doc = serialize (
      add_member "new_data" (info_without_secret new_doc) (
        add_member "old_data" empty_si (
          add_member "portfolio" (of_string portfolio)
            (add_member "action" (of_string "CREATED") empty_si))))

  unfoldable pub delete_message : String → Document → Result Exn String
  delete_message portfolio old_doc = serialize (
      add_member "old_data" (info_without_secret old_doc) (
        add_member "new_data" empty_si (
          add_member "portfolio" (of_string portfolio)
            (add_member "action" (of_string "DELETED") empty_si))))

  unfoldable pub update_message : String → Document → Document → Result Exn String
  update_message portfolio old_doc new_doc = do
    same_public ← is_non_secret_equals new_doc old_doc
    same_secret ← is_secret_equals new_doc old_doc
    serialize (
        add_member "secret_changed" (of_bool (not same_secret)) (
          add_member "non_secret_changed" (of_bool (not same_public)) (
            add_member "new_data" (info_without_secret new_doc) (
              add_member "old_data" (info_without_secret old_doc) (
                add_member "portfolio" (of_string portfolio)
                  (add_member "action" (of_string "UPDATED") empty_si))))))

  unfoldable pub send_notification_on_create : String → Document → Handler (Unit {0})
  unfolding publish create_message
  send_notification_on_create portfolio new_doc = publish (create_message portfolio new_doc)

  unfoldable pub send_notification_on_delete : String → Document → Handler (Unit {0})
  unfolding publish delete_message
  send_notification_on_delete portfolio old_doc = publish (delete_message portfolio old_doc)

  unfoldable pub send_notification_on_update : String → Document → Document → Handler (Unit {0})
  unfolding publish update_message
  send_notification_on_update portfolio old_doc new_doc =
      publish (update_message portfolio old_doc new_doc)
