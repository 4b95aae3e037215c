-- ===== src/Base/StringMap/Selection.antt =====
-- The entries of a map whose values pass a test.
use Prim.Native.String.{String}
use mathlib.Core.Path.{◌≡◌, refl, sym, ap, ◌∙◌}
use mathlib.Core.Logic.{inl, inr}
use mathlib.Core.Bool.{Bool}
use mathlib.Core.Option.{Option, none, some}
use mathlib.Core.List.{[], ◌∷◌}
use text.Mathlib.Text.{◌==◌}
use text.Mathlib.TextEquality.{eq_iff}
use fty_security_wallet.Base.Tests.{if◌then◌else◌, Bool-cases}
use fty_security_wallet.Base.Lists.{select}
use fty_security_wallet.Base.StringMap.{StringMap, lookup, values}
use fty_security_wallet.Base.StringMap.Order.{IsBelow, IsAscending, lookup_below}

module _ {V : Type 0} (test : V → Bool) where
  abbrev pub select_values : StringMap V → StringMap V
  select_values [] = []
  select_values ((k, v) ∷ m) = let rest = select_values m in if test v then (k, v) ∷ rest else rest

  abbrev pub kept : Option V → Option V
  kept none = none
  kept (some v) = if test v then some v else none

  IsBelow-select_values : (k : String) (m : StringMap V) → IsBelow k m → IsBelow k (select_values m)
  IsBelow-select_values k [] below = tt
  IsBelow-select_values k ((j, v) ∷ m) below = elim (Bool-cases (test v)) [
    | inl passes ↦ rw passes (below.0, IsBelow-select_values k m below.1)
    | inr fails ↦ rw fails (IsBelow-select_values k m below.1)
  ]

  pub select_values-IsAscending : (m : StringMap V) → IsAscending m → IsAscending (select_values m)
  select_values-IsAscending [] up = tt
  select_values-IsAscending ((j, v) ∷ m) up = elim (Bool-cases (test v)) [
    | inl passes ↦ rw passes (IsBelow-select_values j m up.0, select_values-IsAscending m up.1)
    | inr fails ↦ rw fails (select_values-IsAscending m up.1)
  ]

  pub values-select_values : (m : StringMap V) → values (select_values m) ≡ select test (values m)
  unfolding values select
  values-select_values [] = refl
  values-select_values ((j, v) ∷ m) = elim (Bool-cases (test v)) [
    | inl passes ↦ rw passes (ap (λ l. v ∷ l) (values-select_values m))
    | inr fails ↦ rw fails (values-select_values m)
  ]

  pub lookup-select_values :
      (k : String) (m : StringMap V)
      → IsAscending m
      → lookup k (select_values m) ≡ kept (lookup k m)
  unfolding lookup
  lookup-select_values k [] up = refl
  lookup-select_values k ((j, v) ∷ m) up =
      let later = lookup-select_values k m up.1 in
      elim (Bool-cases (j == k)) [
        | inr other ↦ elim (Bool-cases (test v)) [
          | inl passes ↦ rw passes (rw other later)
          | inr fails ↦ rw fails (rw other later)
        ]
        | inl here ↦ elim (Bool-cases (test v)) [
          | inl passes ↦ rw passes (rw here (rw passes refl))
          | inr fails ↦
              let gone : lookup k m ≡ none =
                ap (λ i. lookup i m) (sym ((eq_iff j k).0 here)) ∙ lookup_below j m up.0 in
              rw fails (rw here (rw fails (later ∙ ap kept gone)))
        ]
      ]
