-- ===== src/Prelude/Eviction.antt =====
-- A map kept within a bound: the entries that have expired go first, then the oldest one.
use Prim.Native.Nat.{ℕ, ◌≤◌, ◌<◌}
use Prim.Native.String.{String}
use mathlib.Core.Path.{◌≡◌, refl}
use mathlib.Core.Logic.{◌≢◌, inl, inr}
use mathlib.Core.Bool.{Bool, true}
use mathlib.Core.List.{[], ◌∷◌}
use mathlib.Core.Option.{Option, none, some}
use native.Mathlib.Omega.{arith}
use text.Mathlib.Text.{◌==◌ as str_eq}
use text.Mathlib.TextEquality.{eq_iff}
use text.Mathlib.TextPositions.{eq_refl}
use federloom.Prelude.Tests.{if◌then◌else◌, ltb, Bool-cases}
use federloom.Prelude.Lists.{length, contains_string, All}
use federloom.Prelude.Maps.{Assoc, keys, delete, length-delete-lt}

module _ {ℓ} {V : Type ℓ} (is_live : V → Bool) (at : V → ℕ) where
  -- The loop over the map that deletes what has expired.
  unfoldable pub drop_expired : Assoc V → Assoc V
  drop_expired [] = []
  drop_expired ((k, v) ∷ m) = let rest = drop_expired m in if is_live v then (k, v) ∷ rest else rest

  -- The loop that looks for the oldest entry: the one so far, and the entries still to visit.
  unfoldable pub find_oldest : Option (String × V) → Assoc V → Option (String × V)
  find_oldest best [] = best
  find_oldest none ((k, v) ∷ m) = find_oldest (some (k, v)) m
  find_oldest (some (j, w)) ((k, v) ∷ m) =
      find_oldest (if ltb (at v) (at w) then some (k, v) else some (j, w)) m

unfoldable pub drop_oldest {ℓ} : {V : Type ℓ} → Option (String × V) → Assoc V → Assoc V
drop_oldest none m = m
drop_oldest (some (k, v)) m = if str_eq k "" then m else delete k m

-- What has expired goes; if that does not make room, the oldest entry goes too.
unfoldable pub evict {ℓ} : {V : Type ℓ} → (V → Bool) → (V → ℕ) → ℕ → Assoc V → Assoc V
unfolding drop_expired find_oldest drop_oldest
evict is_live at bound m =
    let live = drop_expired is_live at m in
    if ltb (length live) bound then live else drop_oldest (find_oldest is_live at none live) live

-- No key is the empty string.
abbrev pub IsKeyed {ℓ} : {V : Type ℓ} → Assoc V → Type 0
IsKeyed = All (λ e. e.0 ≢ "")

module _ {ℓ} {V : Type ℓ} (is_live : V → Bool) (at : V → ℕ) where
  drop_expired-IsKeyed : (m : Assoc V) → IsKeyed m → IsKeyed (drop_expired is_live at m)
  unfolding drop_expired
  drop_expired-IsKeyed [] h = tt
  drop_expired-IsKeyed ((k, v) ∷ m) h = elim (Bool-cases (is_live v)) [
    | inl live ↦ rw (live, drop_expired) (h.0, drop_expired-IsKeyed m h.1)
    | inr gone ↦ rw (gone, drop_expired) (drop_expired-IsKeyed m h.1)
  ]

  length-drop_expired-le : (m : Assoc V) → length (drop_expired is_live at m) ≤ length m
  unfolding drop_expired
  length-drop_expired-le [] = omega arith
  length-drop_expired-le ((k, v) ∷ m) = ground (arith, length-drop_expired-le m)

  -- The entry that the search ends with is the one it started from or an entry of the map.
  find_oldest_key :
      (j : String) (w : V) (m : Assoc V)
      → j ≢ ""
      → IsKeyed m
      → (k : String) × (v : V) × (find_oldest is_live at (some (j, w)) m ≡ some (k, v))
        × (contains_string (j ∷ keys m) k ≡ true)
        × (k ≢ "")
  unfolding find_oldest
  find_oldest_key j w [] h g = (j, w, refl, simp eq_refl, h)
  find_oldest_key j w ((i, v) ∷ m) h g = elim (Bool-cases (ltb (at v) (at w))) [
    | inl older ↦
        let (k, t, found, there, named) = find_oldest_key i v m g.0 g.1 in
        (k, t, rw older found, ground (arith, there), named)
    | inr newer ↦
        let (k, t, found, there, named) = find_oldest_key j w m h g.1 in
        (k, t, rw newer found, ground (arith, there), named)
  ]

  drop_oldest-lt :
      (m : Assoc V)
      → IsKeyed m
      → 0 < length m
      → length (drop_oldest (find_oldest is_live at none m) m) < length m
  unfolding drop_oldest find_oldest
  drop_oldest-lt [] g h = elim h [ ]
  drop_oldest-lt ((j, w) ∷ m) g h =
      let (k, v, found, there, named) = find_oldest_key j w m g.0 g.1 in
      rw (found, drop_oldest)
        (ground (arith, eq_iff k "", named, length-delete-lt k ((j, w) ∷ m) there))

  -- An eviction at a full map makes room.
  pub length-evict-lt :
      (bound : ℕ) (m : Assoc V)
      → IsKeyed m
      → 0 < bound
      → length m ≤ bound
      → length (evict is_live at bound m) < bound
  unfolding evict
  length-evict-lt bound m g h k = ground (
    arith,
    length-drop_expired-le m,
    drop_oldest-lt (drop_expired is_live at m) (drop_expired-IsKeyed m g),
  )
