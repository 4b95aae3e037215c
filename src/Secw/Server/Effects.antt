-- ===== src/Secw/Server/Effects.antt =====
-- What a successful create, delete or update has checked and done
-- (lib/src/secw_security_wallet_server.cc).
use fty_security_wallet.Base.{String, some, none, List, ◌∷◌, Result, ok, ◌≡◌, sym, subst, ap, ◌∙◌}
use fty_security_wallet.Base.{◌>>=◌ as ◌>>=ᵣ◌}
use fty_security_wallet.Base.Exec.{continue-eq-ok, pure, ◌>>◌}
use fty_security_wallet.External.{External}
use fty_security_wallet.Secw.Error.{Exn}
use fty_security_wallet.Secw.Document.{Document, read_document, validate}
use fty_security_wallet.Secw.Portfolio
use fty_security_wallet.Secw.Portfolio.{Portfolio, get_document}
use fty_security_wallet.Secw.Portfolio.Effects.{IsAdded, add-IsAdded}
use fty_security_wallet.Secw.Portfolio.Changes.{
  IsRemoved, IsUpdated, remove-IsRemoved, update-IsUpdated,
}
use fty_security_wallet.Secw.Document.Header.{read_document-IsHeaded, IsHeaded-unique}
use fty_security_wallet.Secw.Helpers.{deserialize}
use fty_security_wallet.Secw.Configuration.{difference_between_2_usages_id_set}
use fty_security_wallet.Secw.Wallet.{get_portfolio}
use fty_security_wallet.Secw.Server.{World}
use fty_security_wallet.Secw.Server.Rights.{
  MayProduce, MayChange, may_produce, may_change, producer_usages, check_usages,
}
use fty_security_wallet.Secw.Server.Notifications.{
  send_notification_on_delete, send_notification_on_update,
}
use fty_security_wallet.Secw.Server.Writes.{
  add_to_portfolio, save, handle_create, handle_delete, handle_update,
}
use fty_security_wallet.Secw.Server.Tails.{delete_tail-Spares, update_tail-Spares, IsSaved-create}
use fty_security_wallet.Secw.Server.Saving.{IsSaved, IsPut, IsSaved-IsPut, IsSaved-change, changed}

-- Two steps that return, as one.
and_read :
    {A B : Type 0} {r : Result Exn A} (f : A → Result Exn B) {a : A} {b : B}
    → r ≡ ok a
    → f a ≡ ok b
    → (r >>=ᵣ f) ≡ ok b
and_read f h k = rw (h, k)

module _ ⦃e : External⦄ where
  -- A delete that returns: the sender is a producer with every usage of the document, the document
  -- of that id was in the portfolio, and neither the identifier nor its name leads to a document any
  -- more, while all others lead to what they did; this portfolio in the place of the old one is what
  -- is in memory and what was written to the file, and the other portfolios are as they were.
  pub handle_delete_effect :
      (sender portfolio_name id : String) (rest : List String) (s t : World) (reply : String)
      → handle_delete sender (portfolio_name ∷ id ∷ rest) s ≡ (ok reply, t)
      → (p q : Portfolio) × (doc : Document) × (get_portfolio portfolio_name s.wallet ≡ ok p)
        × (get_document id p ≡ ok doc)
        × MayProduce s.wallet portfolio_name sender doc.usages
        × IsRemoved id doc p q
        × IsSaved portfolio_name q s t
        × IsPut portfolio_name q s t
  unfolding handle_delete
  handle_delete_effect sender portfolio_name id rest s t reply h =
      let (allowed, rights, h1) =
        continue-eq-ok (producer_usages portfolio_name sender s.wallet) _ s h in
      let (p, found, h2) = continue-eq-ok (get_portfolio portfolio_name s.wallet) _ s h1 in
      let (doc, there, h3) = continue-eq-ok (get_document id p) _ s h2 in
      let (_, checked, h4) = continue-eq-ok (check_usages allowed doc.usages) _ s h3 in
      let (q, removed, h5) =
        changed portfolio_name (Portfolio.remove id p)
          (save >> (send_notification_on_delete portfolio_name doc >> pure "OK")) s t reply h4 in
      let gone = remove-IsRemoved id doc p q there removed in
      let saved =
        IsSaved-change portfolio_name q _ s t reply (delete_tail-Spares portfolio_name doc) h5 in
      (
        p,
        q,
        doc,
        found,
        there,
        may_produce portfolio_name sender s.wallet allowed doc.usages rights checked,
        gone,
        saved,
        IsSaved-IsPut portfolio_name p q s t found gone.name saved,
      )

  -- A create that returns an identifier: the document that was sent is valid, the sender is a
  -- producer with every usage of it, its name and the identifier were in use nowhere in the
  -- portfolio, and the document is stored under the identifier, in memory and in what was written to
  -- the file; the other portfolios are as they were.
  pub handle_create_effect :
      (sender portfolio_name document : String) (rest : List String) (s t : World) (id : String)
      → handle_create sender (portfolio_name ∷ document ∷ rest) s ≡ (ok id, t)
      → (p : Portfolio) × (doc : Document) × (q : Portfolio) × (get_portfolio portfolio_name
            s.wallet
          ≡ ok p)
        × ((deserialize document >>=ᵣ read_document none) ≡ ok doc)
        × (validate doc ≡ ok tt)
        × MayProduce s.wallet portfolio_name sender doc.usages
        × IsAdded doc p s.draws id q
        × IsSaved portfolio_name q s t
        × IsPut portfolio_name q s t
  unfolding handle_create add_to_portfolio
  handle_create_effect sender portfolio_name document rest s t id h =
      let (allowed, rights, h1) =
        continue-eq-ok (producer_usages portfolio_name sender s.wallet) _ s h in
      let (p, found, h2) = continue-eq-ok (get_portfolio portfolio_name s.wallet) _ s h1 in
      let (si, parsed, h3) = continue-eq-ok (deserialize document) _ s h2 in
      let (doc, read, h4) = continue-eq-ok (read_document none si) _ s h3 in
      let (_, valid, h5) = continue-eq-ok (validate doc) _ s h4 in
      let (_, checked, h6) = continue-eq-ok (check_usages allowed doc.usages) _ s h5 in
      let (new_id, added, h7) = continue-eq-ok (Portfolio.add doc (p, s.draws)).0 _ _ h6 in
      let (same, saved) =
        IsSaved-create portfolio_name new_id id (Portfolio.add doc (p, s.draws)).1.0
          (Portfolio.add doc (p, s.draws)).1.1 s t h7 in
      let stored = add-IsAdded doc p s.draws id (added ∙ ap (λ i. ok i) same) in
      (
        p,
        doc,
        (Portfolio.add doc (p, s.draws)).1.0,
        found,
        and_read (read_document none) parsed read,
        valid,
        may_produce portfolio_name sender s.wallet allowed doc.usages rights checked,
        stored,
        saved,
        IsSaved-IsPut portfolio_name p _ s t found stored.name saved,
      )

  -- An update that returns: the document that was sent names a stored document by its identifier.
  -- The updated document is the stored one with what was sent read over it; it is valid, and it has
  -- the identifier and the usages that were sent. Every usage that the stored or the updated
  -- document has and the other has not is granted to the sender as a producer. The identifier leads
  -- to the updated document, and so does its name, which was the old one or free; the old name, if
  -- it was another, leads nowhere, and all other identifiers and names lead to what they did. This
  -- portfolio in the place of the old one is what is in memory and what was written to the file; the
  -- other portfolios are as they were.
  pub handle_update_effect :
      (sender portfolio_name document : String) (rest : List String) (s t : World) (reply : String)
      → handle_update sender (portfolio_name ∷ document ∷ rest) s ≡ (ok reply, t)
      → (p q : Portfolio) × (doc existing updated : Document) × (get_portfolio portfolio_name
            s.wallet
          ≡ ok p)
        × ((deserialize document >>=ᵣ read_document none) ≡ ok doc)
        × (get_document doc.id p ≡ ok existing)
        × MayChange s.wallet portfolio_name sender existing.usages updated.usages
        × ((deserialize document >>=ᵣ read_document (some existing)) ≡ ok updated)
        × (validate updated ≡ ok tt)
        × (updated.id ≡ doc.id)
        × (updated.usages ≡ doc.usages)
        × IsUpdated existing updated p q
        × IsSaved portfolio_name q s t
        × IsPut portfolio_name q s t
  unfolding handle_update
  handle_update_effect sender portfolio_name document rest s t reply h =
      let (allowed, rights, h1) =
        continue-eq-ok (producer_usages portfolio_name sender s.wallet) _ s h in
      let (p, found, h2) = continue-eq-ok (get_portfolio portfolio_name s.wallet) _ s h1 in
      let (si, parsed, h3) = continue-eq-ok (deserialize document) _ s h2 in
      let (doc, read, h4) = continue-eq-ok (read_document none si) _ s h3 in
      let (existing, there, h5) = continue-eq-ok (get_document doc.id p) _ s h4 in
      let diff = difference_between_2_usages_id_set doc.usages existing.usages in
      let (_, checked, h6) = continue-eq-ok (check_usages allowed diff) _ s h5 in
      let (updated, read_over, h7) = continue-eq-ok (read_document (some existing) si) _ s h6 in
      let (_, valid, h8) = continue-eq-ok (validate updated) _ s h7 in
      let (q, replaced, h9) =
        changed portfolio_name (Portfolio.update updated p)
          (save >> (send_notification_on_update portfolio_name existing doc >> pure "OK")) s t reply
          h8 in
      let (same_id, _, same_usages) =
        IsHeaded-unique si updated doc (read_document-IsHeaded (some existing) si updated read_over)
          (read_document-IsHeaded none si doc read) in
      let replacement =
        update-IsUpdated existing updated p q (ap (λ id. get_document id p) same_id ∙ there)
          replaced in
      let saved =
        IsSaved-change portfolio_name q _ s t reply (update_tail-Spares portfolio_name existing doc)
          h9 in
      (
        p,
        q,
        doc,
        existing,
        updated,
        found,
        and_read (read_document none) parsed read,
        there,
        subst (λ usages. MayChange s.wallet portfolio_name sender existing.usages usages)
            (sym same_usages)
            (may_change s.wallet portfolio_name sender existing.usages doc.usages
              (may_produce portfolio_name sender s.wallet allowed diff rights checked)),
        and_read (read_document (some existing)) parsed read_over,
        valid,
        same_id,
        same_usages,
        replacement,
        saved,
        IsSaved-IsPut portfolio_name p q s t found replacement.name saved,
      )
