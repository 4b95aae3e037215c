-- ===== src/Secw/Document/Views.antt =====
-- What a client may see of a document.
use fty_security_wallet.Base.{false}
use fty_security_wallet.Secw.Body.RoundTrip.{forget_private}
use fty_security_wallet.Secw.Document.{Document}

-- The document without its secrets.
abbrev pub public_view : Document → Document
public_view doc = record doc { body = forget_private doc.body; contain_private_data = false }
