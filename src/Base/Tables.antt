-- ===== src/Base/Tables.antt =====
-- Tables with byte strings as keys, as association lists: what a GHashTable holds.
use mathlib.Core.Path.{◌≡◌, refl}
use mathlib.Core.Bool.{Bool, true, false}
use mathlib.Core.Option.{Option, none, some}
use mathlib.Core.List.{List, [], ◌∷◌}
use native.Mathlib.Omega.{arith}
use librpc.Base.Tests.{if◌then◌else◌}
use librpc.Base.ByteStrings.{Bytes, bytes_eq, bytes_eq_iff}

abbrev pub Table {ℓ} : Type ℓ → Type ℓ
Table A = List (Bytes × A)

abbrev pub is_some {ℓ} : {A : Type ℓ} → Option A → Bool
is_some none = false
is_some (some a) = true

module _ {ℓ} {A : Type ℓ} where
  unfoldable pub find : Bytes → Table A → Option A
  find k [] = none
  find k ((j, a) ∷ r) = if bytes_eq j k then some a else find k r

  unfoldable pub put : Bytes → A → Table A → Table A
  put k a [] = (k, a) ∷ []
  put k a ((j, b) ∷ r) = if bytes_eq j k then (j, a) ∷ r else (j, b) ∷ put k a r

  unfoldable pub drop_key : Bytes → Table A → Table A
  drop_key k [] = []
  drop_key k ((j, b) ∷ r) = let rest = drop_key k r in if bytes_eq j k then rest else (j, b) ∷ rest

  pub find-put :
      (k j : Bytes) (a : A) (t : Table A)
      → find j (put k a t) ≡ (if bytes_eq k j then some a else find j t)
  unfolding find put
  find-put k j a [] = refl
  find-put k j a ((i, b) ∷ r) =
      ground (arith, bytes_eq_iff k j, bytes_eq_iff i k, bytes_eq_iff i j, find-put k j a r)

  pub find-drop_key :
      (k j : Bytes) (t : Table A)
      → find j (drop_key k t) ≡ (if bytes_eq k j then none else find j t)
  unfolding find drop_key
  find-drop_key k j [] = ground arith
  find-drop_key k j ((i, b) ∷ r) =
      ground (arith, bytes_eq_iff k j, bytes_eq_iff i k, bytes_eq_iff i j, find-drop_key k j r)
