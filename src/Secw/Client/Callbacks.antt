-- ===== src/Secw/Client/Callbacks.antt =====
-- The notifications at the client: the callbacks of class `ClientAccessor`
-- (lib/src/secw_client_accessor.cc). A callback is code of the user, so the listener only holds
-- whether each is set, and the handler returns the call that it makes.
use fty_security_wallet.Base.{
  String, Bool, true, false, not, ◌&&◌, ◌||◌, Option, some, none, List, [], ◌∷◌, returns, Result,
  ok, err, hang, ◌>>=◌, >>=-eq-ok, or_throw, ◌≡◌, refl, ◌==◌, if◌then◌else◌,
}
use fty_security_wallet.External.{External, read_string, read_bool}
use fty_security_wallet.External.Laws.{Laws}
use fty_security_wallet.Secw.Error.{Exn, standard}
use fty_security_wallet.Secw.Document.{
  Document, read_document, info_without_secret, is_non_secret_equals, is_secret_equals,
}
use fty_security_wallet.Secw.Document.Views.{public_view}
use fty_security_wallet.Secw.Document.RoundTrip.{IsOrdered, read_document-info_without_secret}
use fty_security_wallet.Secw.Helpers.{deserialize, serialize-eq-ok}
use fty_security_wallet.Secw.Server.Notifications.{update_message}

pub record Listener : Type 0 where
  -- whether there is a stream to subscribe to
  pub has_stream : Bool
  pub created_callback : Bool
  pub updated_callback : Bool
  pub deleted_callback : Bool
  pub started_callback : Bool
  pub is_registered : Bool

-- `updateNotificationThread`: the second test is the first one again, on the new state.
unfoldable pub update_notification_thread : Listener → Listener
update_notification_thread l =
    let running =
      l.created_callback || l.updated_callback || l.deleted_callback || l.started_callback in
    let m : Listener =
      if running && not l.is_registered then record l { is_registered = true } else l in
    if running && not m.is_registered then record m { is_registered = false } else m

-- `setCallbackOnUpdate` and the three others
unfoldable pub set_callback_on_update : Bool → Listener → Listener
unfolding update_notification_thread
set_callback_on_update callback l =
    if l.has_stream
    then update_notification_thread (record l { updated_callback = callback })
    else l

unfoldable pub set_callback_on_create : Bool → Listener → Listener
unfolding update_notification_thread
set_callback_on_create callback l =
    if l.has_stream
    then update_notification_thread (record l { created_callback = callback })
    else l

unfoldable pub set_callback_on_delete : Bool → Listener → Listener
unfolding update_notification_thread
set_callback_on_delete callback l =
    if l.has_stream
    then update_notification_thread (record l { deleted_callback = callback })
    else l

unfoldable pub set_callback_on_start : Bool → Listener → Listener
unfolding update_notification_thread
set_callback_on_start callback l =
    if l.has_stream
    then update_notification_thread (record l { started_callback = callback })
    else l

pub data Call : Type 0 where
  created : String → Document → Call
  updated : String → Document → Document → Bool → Bool → Call
  deleted : String → Document → Call
  started : Call

-- the `try` around the handler: what is thrown is logged
abbrev pub logged : Result Exn (Option Call) → Option Call
logged (ok call) = call
logged (err x) = none
logged hang = none

module _ ⦃e : External⦄ where
  open e use {Si, get_member}

  abbrev read_document_at : String → Si → Result Exn Document
  read_document_at name si = or_throw standard (get_member name si) >>= read_document none

  unfoldable pub on_created : Si → Result Exn (Option Call)
  on_created si = do
    portfolio ← or_throw standard (read_string "portfolio" si)
    new_data ← read_document_at "new_data" si
    ok (some (created portfolio new_data))

  unfoldable pub on_updated : Si → Result Exn (Option Call)
  on_updated si = do
    portfolio ← or_throw standard (read_string "portfolio" si)
    old_data ← read_document_at "old_data" si
    new_data ← read_document_at "new_data" si
    non_secret_changed ← or_throw standard (read_bool "non_secret_changed" si)
    secret_changed ← or_throw standard (read_bool "secret_changed" si)
    ok (some (updated portfolio old_data new_data non_secret_changed secret_changed))

  unfoldable pub on_deleted : Si → Result Exn (Option Call)
  on_deleted si = do
    portfolio ← or_throw standard (read_string "portfolio" si)
    old_data ← read_document_at "old_data" si
    ok (some (deleted portfolio old_data))

  -- The branches on the action; nothing is read where no callback is set.
  unfoldable pub on_action : Listener → Si → String → Result Exn (Option Call)
  unfolding on_created on_updated on_deleted
  on_action l si action =
      if action == "CREATED"
      then (if l.created_callback then on_created si else ok none)
      else if action == "UPDATED"
      then (if l.updated_callback then on_updated si else ok none)
      else if action == "DELETED"
      then (if l.deleted_callback then on_deleted si else ok none)
      else if action == "STARTED"
      then (if l.started_callback then ok (some started) else ok none)
      else ok none

  -- `callbackHandler`
  unfoldable pub callback_handler : Listener → List String → Option Call
  unfolding on_action
  callback_handler l (text ∷ []) = logged do
    si ← deserialize text
    action ← or_throw standard (read_string "action" si)
    on_action l si action
  callback_handler l _ = none

  module _ (laws : Laws) where
    open e use {to_json, add_member, of_string, of_bool, empty_si}
    open laws use {
      find_member-empty, find_member-add, get_member_lem, to_string-of_string, to_bool-of_bool,
      of_json-to_json,
    }

    -- the node of the notification of an update
    abbrev update_info : String → Document → Document → Bool → Bool → Si
    update_info portfolio old_doc new_doc non_secret secret =
        add_member "secret_changed" (of_bool secret) (
          add_member "non_secret_changed" (of_bool non_secret) (
            add_member "new_data" (info_without_secret new_doc) (
              add_member "old_data" (info_without_secret old_doc) (
                add_member "portfolio" (of_string portfolio)
                  (add_member "action" (of_string "UPDATED") empty_si)))))

    on_updated-update_info :
        (portfolio : String) (old_doc new_doc : Document) (non_secret secret : Bool)
        → IsOrdered old_doc
        → IsOrdered new_doc
        → on_updated (update_info portfolio old_doc new_doc non_secret secret)
          ≡ ok (
              some
                (updated portfolio (public_view old_doc) (public_view new_doc) non_secret secret))
    unfolding on_updated
    on_updated-update_info portfolio old_doc new_doc non_secret secret old_ordered new_ordered =
        simp (
          get_member_lem,
          find_member-add,
          find_member-empty,
          to_string-of_string,
          to_bool-of_bool,
          read_document-info_without_secret laws old_doc old_ordered,
          read_document-info_without_secret laws new_doc new_ordered,
        )

    action_of_update :
        (portfolio : String) (old_doc new_doc : Document) (non_secret secret : Bool)
        → read_string "action" (update_info portfolio old_doc new_doc non_secret secret)
          ≡ returns "UPDATED"
    action_of_update portfolio old_doc new_doc non_secret secret =
        simp (get_member_lem, find_member-add, find_member-empty, to_string-of_string)

    on_action_updated :
        (l : Listener) (si : Si)
        → l.updated_callback ≡ true
        → on_action l si "UPDATED" ≡ on_updated si
    unfolding on_action
    on_action_updated l si set = rw set refl

    handled :
        (l : Listener) (portfolio text : String) (old_doc new_doc : Document)
        (non_secret secret : Bool)
        → l.updated_callback ≡ true
        → IsOrdered old_doc
        → IsOrdered new_doc
        → to_json (update_info portfolio old_doc new_doc non_secret secret) ≡ returns text
        → callback_handler l (text ∷ [])
          ≡ some (updated portfolio (public_view old_doc) (public_view new_doc) non_secret secret)
    unfolding callback_handler deserialize
    handled l portfolio text old_doc new_doc non_secret secret set old_ordered new_ordered written =
        let si = update_info portfolio old_doc new_doc non_secret secret in
        rw
          (
            of_json-to_json si written,
            action_of_update portfolio old_doc new_doc non_secret secret,
            on_action_updated l si set,
            on_updated-update_info portfolio old_doc new_doc non_secret secret old_ordered
                new_ordered,
          )
          refl

    -- The notification of an update that the server publishes makes a client with a callback call
    -- it with the portfolio, both documents without their secrets, and whether the server found
    -- the public and the secret parts different.
    pub callback_handler-update_message :
        (l : Listener) (portfolio text : String) (old_doc new_doc : Document)
        → l.updated_callback ≡ true
        → IsOrdered old_doc
        → IsOrdered new_doc
        → update_message portfolio old_doc new_doc ≡ ok text
        → (same_public : Bool) × (same_secret : Bool) × (is_non_secret_equals new_doc old_doc
            ≡ ok same_public)
          × (is_secret_equals new_doc old_doc ≡ ok same_secret)
          × (callback_handler l (text ∷ [])
              ≡ some (
                  updated portfolio
                    (public_view old_doc)
                    (public_view new_doc)
                    (not same_public)
                    (not same_secret)))
    unfolding update_message
    callback_handler-update_message l portfolio text old_doc new_doc set old_ordered new_ordered h =
        let (same_public, h1, k1) = >>=-eq-ok (is_non_secret_equals new_doc old_doc) _ h in
        let (same_secret, h2, k2) = >>=-eq-ok (is_secret_equals new_doc old_doc) _ k1 in
        (
          same_public,
          same_secret,
          h1,
          h2,
          handled l portfolio text old_doc new_doc (not same_public) (not same_secret) set
              old_ordered new_ordered (serialize-eq-ok _ text k2),
        )
