-- ===== src/Secw/Body/RoundTrip.antt =====
-- What a kind of document writes, its default object reads back.
use fty_security_wallet.Base.{
  ℕ, String, ◌<◌, ◌≡◌, refl, ◌∙◌, Option, some, none, ok, arith, eq_iff, Bool-cases, inl, inr,
  is_empty, ◌==◌, returns, ap, sym, eq_refl, false,
}
use fty_security_wallet.External.{External}
use fty_security_wallet.External.Laws.{Laws, first_of_both}
use fty_security_wallet.Secw.Body.{
  Body, snmpv3, snmpv1, user_and_password, external_certificate, internal_certificate, Snmpv3,
  SecurityLevel, AuthProtocol, PrivProtocol, number_of_level, level_of, number_of_auth, auth_of,
  number_of_priv, priv_of, type_of, factory, public_info, private_info, add_secret, public_enum,
  private_field, update_public, update_private,
}
use fty_security_wallet.Secw.Body.Keys

-- The kind without its secrets.
abbrev pub forget_private : Body → Body
forget_private (snmpv3 s) = snmpv3 (record s { auth_password = ""; priv_password = "" })
forget_private (snmpv1 community) = snmpv1 community
forget_private (user_and_password user password) = user_and_password user ""
forget_private (external_certificate pem) = external_certificate pem
forget_private (internal_certificate pem key) = internal_certificate pem ""

-- What the factory makes for the type of a kind.
abbrev pub default_of : Body → Body
default_of (snmpv3 s) = snmpv3 (record {
  security_level = SecurityLevel.no_auth_no_priv;
  auth_protocol = AuthProtocol.md5;
  priv_protocol = PrivProtocol.des;
  security_name = "";
  auth_password = "";
  priv_password = "";
})
default_of (snmpv1 community) = snmpv1 ""
default_of (user_and_password user password) = user_and_password "" ""
default_of (external_certificate pem) = external_certificate ""
default_of (internal_certificate pem key) = internal_certificate "" ""

pub factory-type_of : (b : Body) → factory (type_of b) ≡ some (default_of b)
unfolding factory type_of
factory-type_of (snmpv3 s) = refl
factory-type_of _ = refl

level_of-number_of_level : (l : SecurityLevel) → level_of (number_of_level l) ≡ some l
unfolding level_of number_of_level
level_of-number_of_level l = ground arith

auth_of-number_of_auth : (p : AuthProtocol) → auth_of (number_of_auth p) ≡ some p
unfolding auth_of number_of_auth
auth_of-number_of_auth p = ground arith

priv_of-number_of_priv : (p : PrivProtocol) → priv_of (number_of_priv p) ≡ some p
unfolding priv_of number_of_priv
priv_of-number_of_priv p = ground arith

enum_bytes :
    (s : Snmpv3)
    → (number_of_level s.security_level < 256)
      × (number_of_auth s.auth_protocol < 256)
      × (number_of_priv s.priv_protocol < 256)
unfolding number_of_level number_of_auth number_of_priv
enum_bytes s = ground arith

first_of_both-none : {A : Type 0} (o : Option A) → first_of_both o none ≡ o
first_of_both-none none = refl
first_of_both-none (some a) = refl

module _ ⦃e : External⦄ (laws : Laws) where
  open e use {Si, of_number, of_string, add_member, find_member, get_member, empty_si}
  open laws use {
    find_member-empty, find_member-add, get_member_lem, to_string-of_string, to_byte-of_number,
  }

  public_enum_lem :
      {A : Type 0} (of : ℕ → Option A) (key : String) (si : Si) (n : ℕ) (a : A)
      → n < 256
      → of n ≡ some a
      → get_member key si ≡ returns (of_number n)
      → public_enum of key si ≡ ok a
  unfolding public_enum
  public_enum_lem of key si n a small h found =
      rw (found, public_enum) (rw (to_byte-of_number n small, public_enum) (rw h))

  find_member-add_secret_other :
      (k j secret : String) (si : Si)
      → (j == k) ≡ false
      → find_member k (add_secret j secret si) ≡ find_member k si
  unfolding add_secret
  find_member-add_secret_other k j secret si ne = elim (Bool-cases (is_empty secret)) [
    | inl nothing ↦ rw nothing
    | inr written ↦ rw (written, find_member-add, ne) (first_of_both-none (find_member k si))
  ]

  private_field-add_secret :
      (key secret : String) (si : Si)
      → find_member key si ≡ none
      → private_field key "" (add_secret key secret si) ≡ ok secret
  unfolding private_field add_secret
  private_field-add_secret key secret si absent = elim (Bool-cases (is_empty secret)) [
    | inl nothing ↦
        rw (nothing, private_field)
          (rw (absent, private_field) (ap ok (sym ((eq_iff secret "").0 nothing))))
    | inr written ↦
        rw (written, private_field)
          (simp (find_member-add, absent, eq_refl, private_field) (rw (to_string-of_string)))
  ]

  private_field-add_secret_other :
      (k j old secret : String) (si : Si)
      → (j == k) ≡ false
      → private_field k old (add_secret j secret si) ≡ private_field k old si
  unfolding private_field
  private_field-add_secret_other k j old secret si ne =
      rw (find_member-add_secret_other k j secret si ne, private_field)

  -- The public part of any kind reads back into the default object of its type.
  pub update_public-public_info :
      (b : Body) → update_public (default_of b) (public_info b) ≡ ok (forget_private b)
  unfolding update_public public_info
  update_public-public_info (snmpv3 s) =
      let level =
        public_enum_lem level_of Keys.snmpv3_security_level (public_info (snmpv3 s)) _ _
          (enum_bytes s).0 (level_of-number_of_level s.security_level)
          (simp (get_member_lem, find_member-add, find_member-empty)) in
      let auth =
        public_enum_lem auth_of Keys.snmpv3_auth_protocol (public_info (snmpv3 s)) _ _
          (enum_bytes s).1 (auth_of-number_of_auth s.auth_protocol)
          (simp (get_member_lem, find_member-add, find_member-empty)) in
      let priv =
        public_enum_lem priv_of Keys.snmpv3_priv_protocol (public_info (snmpv3 s)) _ _
          (enum_bytes s).2 (priv_of-number_of_priv s.priv_protocol)
          (simp (get_member_lem, find_member-add, find_member-empty)) in
      simp
        (level, auth, priv, get_member_lem, find_member-add, find_member-empty, to_string-of_string)
  update_public-public_info (snmpv1 community) =
      simp (get_member_lem, find_member-add, find_member-empty, to_string-of_string)
  update_public-public_info (user_and_password user password) =
      simp (get_member_lem, find_member-add, find_member-empty, to_string-of_string)
  update_public-public_info (external_certificate pem) =
      simp (get_member_lem, find_member-add, find_member-empty, to_string-of_string)
  update_public-public_info (internal_certificate pem key) =
      simp (get_member_lem, find_member-add, find_member-empty, to_string-of_string)

  -- The private part of any kind reads back into the object that has lost it.
  pub update_private-private_info :
      (b : Body) → update_private (forget_private b) (private_info b) ≡ ok b
  unfolding update_private private_info
  update_private-private_info (snmpv3 s) =
      let auth : private_field Keys.snmpv3_auth_password "" (private_info (snmpv3 s))
          ≡ ok s.auth_password =
        private_field-add_secret_other _ _ _ _ _ refl
        ∙ private_field-add_secret _ s.auth_password _ (find_member-empty _) in
      let priv : private_field Keys.snmpv3_priv_password "" (private_info (snmpv3 s))
          ≡ ok s.priv_password =
        private_field-add_secret _ s.priv_password _
          (find_member-add_secret_other _ _ _ _ refl ∙ find_member-empty _) in
      simp (auth, priv)
  update_private-private_info (snmpv1 community) = refl
  update_private-private_info (user_and_password user password) =
      rw (private_field-add_secret _ password _ (find_member-empty _))
  update_private-private_info (external_certificate pem) = refl
  update_private-private_info (internal_certificate pem key) =
      rw (private_field-add_secret _ key _ (find_member-empty _))
