-- ===== src/Rules/Matching.antt =====
-- What a reason pattern matches.
use Prim.Native.String as Text
use Prim.Native.String.append
use mathlib.Core.Option
use text.Mathlib.TextEquality.{starts_with_iff}
use federloom.Prelude.{◌≡◌, ◌↔◌, refl, sym, ◌∙◌, ap, true, String, eq_iff, none, some}
use federloom.Rules.{strip_star, match_reason}

-- A pattern that ends in a star matches the reasons that begin with what stands before the star.
strip_star-append : (p : String) → strip_star (Text.◌++◌ p "*") ≡ some p
unfolding strip_star
strip_star-append Text.[] = refl
strip_star-append (Text.◌∷◌ c Text.[]) = rw (append.cons c "" "*") refl
strip_star-append (Text.◌∷◌ c (Text.◌∷◌ d r)) =
    ap strip_star (append.cons c (Text.◌∷◌ d r) "*" ∙ ap (Text.◌∷◌ c) (append.cons d r "*"))
    ∙ ap (Option.map (λ p. Text.◌∷◌ c p))
        (ap strip_star (sym (append.cons d r "*")) ∙ strip_star-append (Text.◌∷◌ d r))

-- A pattern `p*` matches exactly the reasons that begin with `p`.
pub match_reason_star :
    (p reason : String)
    → (match_reason (Text.◌++◌ p "*") reason ≡ true)
      ↔ ((rest : String) × (Text.◌++◌ p rest ≡ reason))
unfolding match_reason
match_reason_star p reason = rw (strip_star-append p, match_reason) (starts_with_iff reason p)

-- A pattern that does not end in a star matches exactly the reason that it spells.
pub match_reason_exact :
    (pattern reason : String)
    → strip_star pattern ≡ none
    → (match_reason pattern reason ≡ true) ↔ (pattern ≡ reason)
unfolding match_reason
match_reason_exact pattern reason e = rw (e, match_reason) (eq_iff pattern reason)
