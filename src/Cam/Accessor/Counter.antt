-- ===== src/Cam/Accessor/Counter.antt =====
-- What `getAllCredentialCounter` counts (lib/src/cam_accessor.cc).
use fty_security_wallet.Base.{
  ℕ, zero, suc, ◌+◌, ◌%◌, String, false, Option, some, none, List, [], ◌∷◌, select, length, ◌≡◌,
  refl, ◌∙◌, ap, is_empty, eqb, ◌==◌, if◌then◌else◌, eq_iff, arith, Bool-cases, Option-cases, inl,
  inr,
}
use fty_security_wallet.Base.StringMap
use fty_security_wallet.Base.StringMap.{StringMap}
use fty_security_wallet.Cam.Mapping.{Mapping}
use fty_security_wallet.Cam.Accessor.{count_mapping, count_mappings}

-- how many mappings use a credential
abbrev pub uses : String → List Mapping → ℕ
uses credential ms = length (select (λ m. m.credential_id == credential) ms)

-- A counter after `n` more rounds: `none` stands for no counter yet.
after : Option ℕ → ℕ → Option ℕ
after o zero = o
after none (suc n) = some (suc n % 4294967296)
after (some k) (suc n) = some ((k + suc n) % 4294967296)

after-suc : (o : Option ℕ) (n : ℕ) → after (after o 1) n ≡ after o (suc n)
unfolding after
after-suc none zero = refl
after-suc none (suc n) = ap (λ k. some k) (omega arith)
after-suc (some k) zero = refl
after-suc (some k) (suc n) = ap (λ k. some k) (omega arith)

-- One round counts the credential of its mapping, unless that is empty.
lookup-count_mapping :
    (credential : String) (m : Mapping) (counters : StringMap ℕ)
    → is_empty credential ≡ false
    → StringMap.lookup credential (count_mapping m counters) ≡ (
        if m.credential_id == credential
        then after (StringMap.lookup credential counters) 1
        else StringMap.lookup credential counters)
unfolding count_mapping after
lookup-count_mapping credential m counters named =
    elim (Option-cases (StringMap.lookup m.credential_id counters)) [
      | inl absent ↦ ground (
        arith,
        eq_iff m.credential_id credential,
        eq_iff m.credential_id "",
        eq_iff credential "",
        StringMap.lookup-insert m.credential_id credential 1 counters,
      )
      | inr (n, counted) ↦ ground (
        arith,
        eq_iff m.credential_id credential,
        eq_iff m.credential_id "",
        eq_iff credential "",
        StringMap.lookup-insert m.credential_id credential ((n + 1) % 4294967296) counters,
      )
    ]

lookup-count_mappings :
    (credential : String) (ms : List Mapping) (counters : StringMap ℕ)
    → is_empty credential ≡ false
    → StringMap.lookup credential (count_mappings ms counters)
      ≡ after (StringMap.lookup credential counters) (uses credential ms)
unfolding count_mappings select after
lookup-count_mappings credential [] counters named = refl
lookup-count_mappings credential (m ∷ ms) counters named =
    elim (Bool-cases (m.credential_id == credential)) [
      | inl same ↦ rw same (
          lookup-count_mappings credential ms (count_mapping m counters) named
          ∙ ap (λ o. after o (uses credential ms))
              (rw same at (lookup-count_mapping credential m counters named))
          ∙ after-suc (StringMap.lookup credential counters) (uses credential ms))
      | inr other ↦ rw other (
          lookup-count_mappings credential ms (count_mapping m counters) named
          ∙ ap (λ o. after o (uses credential ms))
              (rw other at (lookup-count_mapping credential m counters named)))
    ]

-- The counter of a credential with a name is the number of the mappings that use it, in a
-- `uint32_t`; a credential that no mapping uses has none.
pub lookup-count_all :
    (credential : String) (ms : List Mapping)
    → is_empty credential ≡ false
    → StringMap.lookup credential (count_mappings ms [])
      ≡ (if eqb (uses credential ms) 0 then none else some (uses credential ms % 4294967296))
unfolding StringMap.lookup after
lookup-count_all credential ms named =
    lookup-count_mappings credential ms [] named ∙ from_none (uses credential ms)
  where
    from_none : (n : ℕ) → after none n ≡ (if eqb n 0 then none else some (n % 4294967296))
    from_none zero = refl
    from_none (suc n) = ground arith
