-- ===== src/Trust/Laws.antt =====
-- internal/trust/store.go: which peers a store trusts, and how much.
use federloom.Prelude.{
  ◌+◌, ◌≤◌, ◌≡◌, sym, ap, ◌∙◌, ◌⊎◌, inl, inr, true, false, ◌&&◌, ltb, arith, String, List, [], ◌∷◌,
  some, Bool-cases, Assoc, lookup, lookup-insert, ok, All, Result-cases, str_eq, if◌then◌else◌, err,
}
use mathlib.Core.Path.{subst}
use federloom.Float.{Float, IsFloat, num, ◌<?◌, ◌≤?◌, ◌≼◌}
use federloom.Proto.{Time, PeerCert}
use federloom.Identity.{Crypto, encode_pub}
use federloom.Trust.{
  Anchor, expired, FileView, TrustFiles, TrustStore, keep_anchors, reload_anchors, reload_certs,
  maybe_reload, cached_trust, resolve,
}
use federloom.Trust.Vouches.{
  IsVouch, HasVouches, maybe_reload-HasVouches, cached_trust_lem, reload_blocked_anchors,
  reload_certs_anchors,
}

-- Every anchor is worth more than nothing, and at most full trust.
abbrev pub HasFairWeights : {F : Type 0} ⦃f : Float F⦄ → Assoc (Anchor F) → Type 0
HasFairWeights {F} m =
    (key : String) (a : Anchor F)
    → lookup key m ≡ some a
    → ((num 0 <? a.weight) ≡ true) × (a.weight ≼ num 1)

-- No weight in a file is NaN, which JSON cannot hold.
abbrev pub HasNumbers : {F : Type 0} ⦃f : Float F⦄ → FileView (Anchor F) → Type 0
HasNumbers file = elim file.content [
  | err m ↦ Unit {0}
  | ok list ↦ All (λ a. a.weight ≼ a.weight) list
]

module _ {F : Type 0} ⦃f : Float F⦄ (laws : IsFloat F) (crypto : Crypto) where
  one_fair : ((f.of_ℕ 0 <? f.of_ℕ 1) ≡ true) × (f.of_ℕ 1 ≼ num 1)
  one_fair = (laws.num_lt 0 1 (omega arith) (omega arith), laws.num_mono 1 1 (omega arith))

  -- The weight that the loop keeps of an anchor that it keeps.
  kept_fair :
      (a : Anchor F)
      → a.weight ≼ a.weight
      → (a.weight ≤? num 0) ≡ false
      → let kept = if num 1 <? a.weight then record a { weight = num 1 } else a in
        ((num 0 <? kept.weight) ≡ true) × (kept.weight ≼ num 1)
  kept_fair a number over = elim (Bool-cases (num 1 <? a.weight)) [
    | inl high ↦ rw high one_fair
    | inr low ↦
        let above : (num 0 <? a.weight) ≡ true = ground (
          arith,
          over,
          laws.le_of_not_lt a.weight (num 0) number (laws.num_mono 0 0 (omega arith)),
        ) in
        rw low (above, laws.le_of_not_lt a.weight (num 1) number one_fair.1 low)
  ]

  keep_anchors_fair :
      (list : List (Anchor F)) (m : Assoc (Anchor F))
      → All (λ a. a.weight ≼ a.weight) list
      → HasFairWeights m
      → HasFairWeights (keep_anchors list m)
  unfolding keep_anchors
  keep_anchors_fair [] m numbers old = old
  keep_anchors_fair (a ∷ rest) m numbers old =
      keep_anchors_fair rest _ numbers.1 (elim (Bool-cases (a.weight ≤? num 0)) [
        | inl none_left ↦ rw none_left old
        | inr over ↦
            let kept = if num 1 <? a.weight then record a { weight = num 1 } else a in
            let fair = kept_fair a numbers.0 over in
            rw over (λ key b found. elim (Bool-cases (str_eq a.identity_pubkey key)) [
              | inl same ↦
                  let e : kept ≡ b =
                    ground (arith, same, lookup-insert a.identity_pubkey key kept m) in
                  subst (λ x. ((num 0 <? x.weight) ≡ true) × (x.weight ≼ num 1)) e fair
              | inr other ↦
                  old key b (ground (arith, other, lookup-insert a.identity_pubkey key kept m))
            ])
      ])

  reload_anchors_fair :
      (file : FileView (Anchor F)) (s : TrustStore F)
      → HasNumbers file
      → HasFairWeights s.anchors
      → HasFairWeights (reload_anchors file s).anchors
  unfolding reload_anchors lookup
  reload_anchors_fair file s numbers old key a found = elim (Result-cases file.content) [
    | inl (m, bad) ↦ old key a (ground arith)
    | inr (list, read) ↦
        let cases : (lookup key s.anchors ≡ some a) ⊎ (lookup key (keep_anchors list []) ≡ some a) =
          ground arith in
        elim cases [
          | inl p ↦ old key a p
          | inr p ↦
              keep_anchors_fair list [] (rw (read, HasNumbers) at numbers) (λ k b h. cc) key a p
        ]
  ]

  maybe_reload_fair :
      (files : TrustFiles F) (now : Time) (s : TrustStore F)
      → HasNumbers files.anchors
      → HasFairWeights s.anchors
      → HasFairWeights (maybe_reload crypto files now s).anchors
  unfolding maybe_reload
  maybe_reload_fair files now s numbers old =
      let s1 : TrustStore F = reload_anchors files.anchors (record s { last_check = now }) in
      let s2 = reload_certs crypto files.certs now s1 in
      let same =
        reload_blocked_anchors crypto files.blocked s2
        ∙ reload_certs_anchors crypto files.certs now s1 in
      let fair = reload_anchors_fair files.anchors (record s { last_check = now }) numbers old in
      elim (Bool-cases (s.loaded_once && ltb now (s.last_check + s.reload_every))) [
        | inl h ↦ rw h old
        | inr h ↦ rw h (subst HasFairWeights (sym same) fair)
      ]

  -- If the cached certificates are signed by their persons, the anchors' weights are more than 0
  -- and at most 1, and no weight in the anchors' file is NaN, then the first two are still so after
  -- a peer is resolved; and a peer that resolves as anchored has a certificate in its name, signed
  -- by a person and not expired, whose person is an anchor that is not expired; the weight and the
  -- group are that anchor's, and the weight is more than 0 and at most 1.
  pub resolve_anchored :
      (files : TrustFiles F) (now : Time) (peer : String) (s t : TrustStore F) (weight : F)
      (group : String)
      → HasVouches crypto s.certs
      → HasFairWeights s.anchors
      → HasNumbers files.anchors
      → resolve crypto files now peer s ≡ (t, (weight, group, true))
      → HasVouches crypto t.certs
        × HasFairWeights t.anchors
        × ((num 0 <? weight) ≡ true)
        × (weight ≼ num 1)
        × ((c : PeerCert) × (a : Anchor F) × IsVouch crypto peer c
            × (now ≤ c.valid_until)
            × (lookup (encode_pub crypto c.person_key) t.anchors ≡ some a)
            × (expired a now ≡ false)
            × (weight ≡ a.weight)
            × (group ≡ a.person))
  unfolding resolve
  resolve_anchored files now peer s t weight group vouches fair numbers h =
      let s' = maybe_reload crypto files now s in
      let arrived : s' ≡ t = ap (λ x. x.0) h in
      let kept =
        subst (λ x. HasVouches crypto x.certs) arrived
          (maybe_reload-HasVouches crypto files now s vouches) in
      let kept_fair =
        subst (λ x. HasFairWeights x.anchors) arrived
          (maybe_reload_fair files now s numbers fair) in
      let trusted =
        subst (λ x. cached_trust crypto now x (lookup peer x.certs) ≡ (weight, group, true)) arrived
          (ap (λ x. x.1) h) in
      let (c, a, found, live, anchor, alive, w, g) =
        cached_trust_lem crypto now t (lookup peer t.certs) weight group trusted in
      let (above, below) = kept_fair (encode_pub crypto c.person_key) a anchor in
      (
        kept,
        kept_fair,
        ap (λ x. num 0 <? x) w ∙ above,
        ap (λ x. x ≤? num 1) w ∙ below,
        (c, a, kept peer c found, live, anchor, alive, w, g),
      )
