-- ===== src/Resources/Slots.antt =====
-- The buckets of the ring as counts of charges: a ring in step with the last ten ticks holds, in
-- each bucket, the charges of the one tick of the last ten that falls on it.
use federloom.Prelude.{
  ℕ, zero, suc, ◌+◌, ◌%◌, ◌≤◌, ◌<◌, ◌≡◌, ◌≢◌, refl, ap, ◌∙◌, ◌&&◌, if◌then◌else◌, arith, sym, ltb,
  ◌==◌, List, [], ◌∷◌, get_or, set, replicate, length, length-set, get_or-set_self, get_or-set_ne,
}
use native.Mathlib.Nat.{add-zero}
use native.Mathlib.Decide.{ℕ_discrete}
use federloom.Resources.{clear_ticks, sum, bump}

-- The charges of a history, given by their ticks, that lie in the ten ticks up to `t`.
unfoldable pub recent : ℕ → List ℕ → ℕ
recent t [] = 0
recent t (c ∷ cs) = (if ltb t (c + 10) then 1 else 0) + recent t cs

-- Those among them that fall on one bucket.
unfoldable pub in_slot : ℕ → ℕ → List ℕ → ℕ
in_slot t s [] = 0
in_slot t s (c ∷ cs) = (if c % 10 == s && ltb t (c + 10) then 1 else 0) + in_slot t s cs

-- No charge is later than `t`.
abbrev pub IsUpTo : ℕ → List ℕ → Type 0
IsUpTo t [] = Unit
IsUpTo t (c ∷ cs) = (c ≤ t) × IsUpTo t cs

pub IsUpTo-mono : (t u : ℕ) (cs : List ℕ) → t ≤ u → IsUpTo t cs → IsUpTo u cs
IsUpTo-mono t u [] h k = tt
IsUpTo-mono t u (c ∷ cs) h k = (omega arith, IsUpTo-mono t u cs h k.1)

sum_ten :
    (a b c d e f g h i j : ℕ)
    → sum (a ∷ b ∷ c ∷ d ∷ e ∷ f ∷ g ∷ h ∷ i ∷ j ∷ []) ≡ a + b + c + d + e + f + g + h + i + j
unfolding sum
sum_ten a b c d e f g h i j = omega arith

-- The ten buckets together count each recent charge once.
slots-recent :
    (t : ℕ) (cs : List ℕ)
    → in_slot t 0 cs
        + in_slot t 1 cs
        + in_slot t 2 cs
        + in_slot t 3 cs
        + in_slot t 4 cs
        + in_slot t 5 cs
        + in_slot t 6 cs
        + in_slot t 7 cs
        + in_slot t 8 cs
        + in_slot t 9 cs
      ≡ recent t cs
unfolding in_slot recent
slots-recent t [] = refl
slots-recent t (c ∷ cs) = ground (arith, slots-recent t cs)

-- When the window moves on by one tick, the bucket of the new tick holds nothing that is still
-- recent, and the other buckets hold what they held.
in_slot_claimed :
    (last s : ℕ) (cs : List ℕ) → IsUpTo last cs → s ≡ (last + 1) % 10 → in_slot (last + 1) s cs ≡ 0
unfolding in_slot
in_slot_claimed last s [] up e = refl
in_slot_claimed last s (c ∷ cs) up e = ground (arith, in_slot_claimed last s cs up.1 e)

in_slot_kept :
    (last s : ℕ) (cs : List ℕ) → s ≢ (last + 1) % 10 → in_slot (last + 1) s cs ≡ in_slot last s cs
unfolding in_slot
in_slot_kept last s [] ne = refl
in_slot_kept last s (c ∷ cs) ne = ground (arith, in_slot_kept last s cs ne)

pub in_slot_over :
    (last t s : ℕ) (cs : List ℕ) → IsUpTo last cs → last + 10 ≤ t → in_slot t s cs ≡ 0
unfolding in_slot
in_slot_over last t s [] up h = refl
in_slot_over last t s (c ∷ cs) up h = ground (arith, in_slot_over last t s cs up.1 h)

pub clear_ticks_lem :
    (counts : List ℕ) (last n s : ℕ) (cs : List ℕ)
    → length counts ≡ 10
    → s < 10
    → IsUpTo last cs
    → get_or counts s 0 ≡ in_slot last s cs
    → get_or (clear_ticks counts last n) s 0 ≡ in_slot (last + n) s cs
unfolding clear_ticks
clear_ticks_lem counts last zero s cs len h up e = rw add-zero e
clear_ticks_lem counts last (suc n) s cs len h up e =
    clear_ticks_lem (set counts ((last + 1) % 10) 0) (last + 1) n s cs (length-set counts _ 0 ∙ len)
      h (IsUpTo-mono last (last + 1) cs (omega arith) up) next
    ∙ ap (λ t. in_slot t s cs) (omega arith)
  where
    next : get_or (set counts ((last + 1) % 10) 0) s 0 ≡ in_slot (last + 1) s cs
    next = elim (ℕ_discrete s ((last + 1) % 10)) [
      | yes same ↦
          rw (in_slot_claimed last s cs up same)
            (rw same (get_or-set_self counts _ 0 0 (omega arith)))
      | no other ↦
          get_or-set_ne counts _ s 0 0 (λ p. other (omega arith))
          ∙ e
          ∙ sym (in_slot_kept last s cs other)
    ]

pub length-clear_ticks :
    (counts : List ℕ) (last n : ℕ) → length (clear_ticks counts last n) ≡ length counts
unfolding clear_ticks
length-clear_ticks counts last zero = refl
length-clear_ticks counts last (suc n) =
    length-clear_ticks (set counts _ 0) (last + 1) n ∙ length-set counts _ 0

sum_below : ℕ → (ℕ → ℕ) → ℕ
sum_below zero f = 0
sum_below (suc n) f = f 0 + sum_below n (λ i. f (suc i))

sum-sum_below : (l : List ℕ) → sum l ≡ sum_below (length l) (λ i. get_or l i 0)
unfolding sum sum_below
sum-sum_below [] = refl
sum-sum_below (x ∷ xs) = ap (λ n. x + n) (sum-sum_below xs)

pub sum_slots :
    (l : List ℕ) (t : ℕ) (cs : List ℕ)
    → length l ≡ 10
    → ((s : ℕ) → s < 10 → get_or l s 0 ≡ in_slot t s cs)
    → sum l ≡ recent t cs
unfolding sum_below
sum_slots l t cs len h =
    let ten = sum-sum_below l ∙ ap (λ n. sum_below n (λ i. get_or l i 0)) len in
    omega (
      arith,
      ten,
      slots-recent t cs,
      h 0 (omega arith),
      h 1 (omega arith),
      h 2 (omega arith),
      h 3 (omega arith),
      h 4 (omega arith),
      h 5 (omega arith),
      h 6 (omega arith),
      h 7 (omega arith),
      h 8 (omega arith),
      h 9 (omega arith),
    )

pub get_or-replicate : (n s : ℕ) → ◌≡◌ {A = ℕ} (get_or (replicate n 0) s 0) 0
get_or-replicate zero s = refl
get_or-replicate (suc n) zero = refl
get_or-replicate (suc n) (suc s) = get_or-replicate n s

pub length-bump : (counts : List ℕ) (t : ℕ) → length (bump counts t) ≡ length counts
unfolding bump
length-bump counts t = length-set counts _ _

pub bump-slot :
    (counts : List ℕ) (t s : ℕ) (cs : List ℕ)
    → length counts ≡ 10
    → get_or counts s 0 ≡ in_slot t s cs
    → get_or (bump counts t) s 0 ≡ in_slot t s (t ∷ cs)
unfolding bump in_slot
bump-slot counts t s cs len e = elim (ℕ_discrete s (t % 10)) [
  | yes same ↦
      let wrote = get_or-set_self counts (t % 10) (get_or counts (t % 10) 0 + 1) 0 (omega arith) in
      rw same
        (ground (arith, wrote, ap (λ i. get_or counts i 0) same, ap (λ i. in_slot t i cs) same))
  | no other ↦
      let kept =
        get_or-set_ne counts (t % 10) s (get_or counts (t % 10) 0 + 1) 0
          (λ p. other (omega arith)) in
      ground (arith, kept, other)
]
