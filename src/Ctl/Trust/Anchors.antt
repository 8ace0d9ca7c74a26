-- ===== src/Ctl/Trust/Anchors.antt =====
-- The weights of the anchors that the commands write.
use federloom.Prelude.{
  ◌≡◌, refl, sym, inl, inr, Bool, true, false, Bool-cases, Option-cases, ◌&&◌, if◌then◌else◌,
  if_elim, arith, String, str_eq, List, [], ◌∷◌, Option, none, some, Result, ok, err, Result-cases,
  All,
}
use mathlib.Core.Path.{subst}
use federloom.Float.{Float, num, ◌≤?◌}
use federloom.Proto.{Time, Bytes, PeerCert}
use federloom.Identity.{Crypto, same_bytes}
use federloom.Trust.{Anchor}
use federloom.Ctl.Trust.{
  CtlError, unknown_person, TrustDir, Command, Bundle, Edit, add, set, remove, import, block,
  unblock, save_anchors, save_certs, save_blocked, put_anchor, upsert_anchor, without_person,
  out_of_range, weight_or, set_anchor, trust_add, trust_set, trust_remove, trust_import,
  trust_block, trust_unblock, cmd_trust, after_edits, then_anchor, import_into,
}

module _ {F : Type 0} ⦃f : Float F⦄ where
  -- No weight that is 0 or below, and none above 1.
  abbrev pub IsFair : List (Anchor F) → Type 0
  IsFair = All (λ a. out_of_range a.weight ≡ false)

  -- The anchors of a directory are fair, if they can be loaded at all.
  abbrev pub IsFairFile : Result String (List (Anchor F)) → Type 0
  IsFairFile (err e) = Unit
  IsFairFile (ok anchors) = IsFair anchors

  abbrev pub HasFairAnchors : TrustDir F → Type 0
  HasFairAnchors dir = IsFairFile dir.anchors

  put_anchor-IsFair :
      (a : Anchor F) (anchors : List (Anchor F))
      → out_of_range a.weight ≡ false
      → IsFair anchors
      → IsFair (put_anchor a anchors)
  unfolding put_anchor
  put_anchor-IsFair a [] fair h = (fair, tt)
  put_anchor-IsFair a (b ∷ anchors) fair h = elim (Bool-cases (str_eq b.person a.person)) [
    | inl same ↦ rw same (fair, h.1)
    | inr other ↦ rw other (h.0, put_anchor-IsFair a anchors fair h.1)
  ]

  without_person-IsFair :
      (person : String) (anchors : List (Anchor F))
      → IsFair anchors
      → IsFair (without_person person anchors).0
  unfolding without_person
  without_person-IsFair person [] h = tt
  without_person-IsFair person (a ∷ anchors) h = elim (Bool-cases (str_eq a.person person)) [
    | inl same ↦ rw same (without_person-IsFair person anchors h.1)
    | inr other ↦ rw other (h.0, without_person-IsFair person anchors h.1)
  ]

  save_anchors-HasFairAnchors :
      (dir : TrustDir F) (anchors : List (Anchor F)) (saved : Bool)
      → HasFairAnchors dir
      → IsFair anchors
      → HasFairAnchors (save_anchors dir anchors saved).1
  unfolding save_anchors
  save_anchors-HasFairAnchors dir anchors true h fair = fair
  save_anchors-HasFairAnchors dir anchors false h fair = h

  upsert_anchor-HasFairAnchors :
      (dir : TrustDir F) (a : Anchor F) (saved : Bool)
      → HasFairAnchors dir
      → out_of_range a.weight ≡ false
      → HasFairAnchors (upsert_anchor dir a saved).1
  unfolding upsert_anchor
  upsert_anchor-HasFairAnchors dir a saved h fair = elim (Result-cases dir.anchors) [
    | inl (e, failed) ↦ rw (failed, upsert_anchor) h
    | inr (anchors, there) ↦
        rw (there, upsert_anchor)
          (save_anchors-HasFairAnchors dir _ saved h
            (put_anchor-IsFair a anchors fair (subst IsFairFile there h)))
  ]

  trust_remove-HasFairAnchors :
      (args : List String) (dir : TrustDir F) (saved : Bool)
      → HasFairAnchors dir
      → HasFairAnchors (trust_remove args dir saved).1
  unfolding trust_remove
  trust_remove-HasFairAnchors [] dir saved h = h
  trust_remove-HasFairAnchors (a ∷ b ∷ args) dir saved h = h
  trust_remove-HasFairAnchors (person ∷ []) dir saved h = elim (Result-cases dir.anchors) [
    | inl (e, failed) ↦ rw (failed, trust_remove) h
    | inr (anchors, there) ↦ elim (Bool-cases (without_person person anchors).1) [
      | inl found ↦
          rw (there, trust_remove, found)
            (save_anchors-HasFairAnchors dir _ saved h
              (without_person-IsFair person anchors (subst IsFairFile there h)))
      | inr missing ↦ rw (there, trust_remove, missing) h
    ]
  ]

  trust_block-anchors :
      (args : List String) (dir : TrustDir F) (saved : Bool)
      → (trust_block args dir saved).1.anchors ≡ dir.anchors
  unfolding trust_block save_blocked
  trust_block-anchors [] dir saved = refl
  trust_block-anchors (a ∷ b ∷ args) dir saved = refl
  trust_block-anchors (peer ∷ []) dir saved = ground arith

  trust_unblock-anchors :
      (args : List String) (dir : TrustDir F) (saved : Bool)
      → (trust_unblock args dir saved).1.anchors ≡ dir.anchors
  unfolding trust_unblock save_blocked
  trust_unblock-anchors [] dir saved = refl
  trust_unblock-anchors (a ∷ b ∷ args) dir saved = refl
  trust_unblock-anchors (peer ∷ []) dir saved = ground arith

  trust_add-HasFairAnchors :
      (crypto : Crypto) (args : List String) (label : String) (weight anchor_weight : F)
      (decoded : Option Bytes) (own : Result String (Option Bytes)) (dir : TrustDir F)
      (saved : Bool)
      → HasFairAnchors dir
      → HasFairAnchors (trust_add crypto args label weight anchor_weight decoded own dir saved).1
  unfolding trust_add
  trust_add-HasFairAnchors crypto [] label weight top decoded own dir saved h = h
  trust_add-HasFairAnchors crypto (a ∷ b ∷ args) label weight top decoded own dir saved h = h
  trust_add-HasFairAnchors crypto (p ∷ []) label weight top none own dir saved h =
      if_elim (λ (r : Command F). HasFairAnchors r.1) (out_of_range (weight_or weight top)) _ _
        (λ bad. h) (λ fair. h)
  trust_add-HasFairAnchors crypto (p ∷ []) label weight top (some key) (err e) dir saved h =
      if_elim (λ (r : Command F). HasFairAnchors r.1) (out_of_range (weight_or weight top)) _ _
        (λ bad. h) (λ fair. h)
  trust_add-HasFairAnchors crypto (p ∷ []) label weight top (some key) (ok none) dir saved h =
      if_elim (λ (r : Command F). HasFairAnchors r.1) (out_of_range (weight_or weight top)) _ _
        (λ bad. h) (λ fair. upsert_anchor-HasFairAnchors dir _ saved h fair)
  trust_add-HasFairAnchors crypto (p ∷ []) label weight top (some key) (ok (some own)) dir saved h =
      if_elim (λ (r : Command F). HasFairAnchors r.1) (out_of_range (weight_or weight top)) _ _
        (λ bad. h)
        (λ fair.
          if_elim (λ (r : Command F). HasFairAnchors r.1) (same_bytes own key) _ _ (λ mine. h)
            (λ other. upsert_anchor-HasFairAnchors dir _ saved h fair))

  -- What a change of an anchor gives: an error, or fair anchors.
  abbrev IsFairChange : Option (Result CtlError (List (Anchor F))) → Type 0
  IsFairChange none = Unit
  IsFairChange (some (err e)) = Unit
  IsFairChange (some (ok anchors)) = IsFair anchors

  set_later :
      (a : Anchor F) (r : Option (Result CtlError (List (Anchor F))))
      → out_of_range a.weight ≡ false
      → IsFairChange r
      → IsFairChange (elim r [
        | none ↦ none
        | some (err e) ↦ some (err e)
        | some (ok changed) ↦ some (ok (a ∷ changed))
      ])
  set_later a none fair h = tt
  set_later a (some (err e)) fair h = tt
  set_later a (some (ok changed)) fair h = (fair, h)

  set_anchor-IsFairChange :
      (person : String) (weight : F) (label : String) (anchors : List (Anchor F))
      → IsFair anchors
      → IsFairChange (set_anchor person weight label anchors)
  unfolding set_anchor
  set_anchor-IsFairChange person weight label [] h = tt
  set_anchor-IsFairChange person weight label (a ∷ anchors) h =
      if_elim IsFairChange (str_eq a.person person) _ _
        (λ here.
          if_elim (λ r. IsFairChange (some r)) ((num 0 ≤? weight) && out_of_range weight) _ _
            (λ bad. tt) (λ fair. (ground (arith, fair, h.0), h.1)))
        (λ there.
          set_later a (set_anchor person weight label anchors) h.0
            (set_anchor-IsFairChange person weight label anchors h.1))

  set_saved :
      (dir : TrustDir F) (saved : Bool) (r : Option (Result CtlError (List (Anchor F))))
      → HasFairAnchors dir
      → IsFairChange r
      → IsFairFile
          (elim r as (λ q. Command F) [
            | none ↦ (some unknown_person, dir)
            | some (err e) ↦ (some e, dir)
            | some (ok changed) ↦ save_anchors dir changed saved
          ]).1.anchors
  set_saved dir saved none h g = h
  set_saved dir saved (some (err e)) h g = h
  set_saved dir saved (some (ok changed)) h g = save_anchors-HasFairAnchors dir changed saved h g

  trust_set-HasFairAnchors :
      (args : List String) (weight : F) (label : String) (dir : TrustDir F) (saved : Bool)
      → HasFairAnchors dir
      → HasFairAnchors (trust_set args weight label dir saved).1
  unfolding trust_set
  trust_set-HasFairAnchors [] weight label dir saved h = h
  trust_set-HasFairAnchors (a ∷ b ∷ args) weight label dir saved h = h
  trust_set-HasFairAnchors (person ∷ []) weight label dir saved h =
      elim (Result-cases dir.anchors) [
        | inl (e, failed) ↦ rw (failed, trust_set) h
        | inr (anchors, there) ↦
            rw (there, trust_set)
              (set_saved dir saved (set_anchor person weight label anchors) h
                (set_anchor-IsFairChange person weight label anchors (subst IsFairFile there h)))
      ]

  save_certs-HasFairAnchors :
      (dir : TrustDir F) (certs : List PeerCert) (saved : Bool)
      → HasFairAnchors dir
      → HasFairAnchors (save_certs dir certs saved).1
  unfolding save_certs
  save_certs-HasFairAnchors dir certs true h = h
  save_certs-HasFairAnchors dir certs false h = h

  then_anchor-HasFairAnchors :
      (step : Command F) (a : Anchor F) (anchored : Bool)
      → HasFairAnchors step.1
      → out_of_range a.weight ≡ false
      → HasFairAnchors (then_anchor step a anchored).1
  unfolding then_anchor
  then_anchor-HasFairAnchors (some e, dir) a anchored h fair = h
  then_anchor-HasFairAnchors (none, dir) a anchored h fair =
      upsert_anchor-HasFairAnchors dir a anchored h fair

  import_into-HasFairAnchors :
      (crypto : Crypto) (key : Bytes) (now : Time) (certs : List PeerCert) (a : Anchor F)
      (dir : TrustDir F) (saved anchored : Bool)
      → HasFairAnchors dir
      → out_of_range a.weight ≡ false
      → HasFairAnchors (import_into crypto key now certs a dir saved anchored).1
  unfolding import_into
  import_into-HasFairAnchors crypto key now certs a dir saved anchored h fair =
      elim (Result-cases dir.certs) [
        | inl (e, failed) ↦ rw (failed, import_into) h
        | inr (existing, there) ↦
            rw (there, import_into)
              (then_anchor-HasFairAnchors _ a anchored (save_certs-HasFairAnchors dir _ saved h)
                fair)
      ]

  trust_import-HasFairAnchors :
      (crypto : Crypto) (now : Time) (args : List String) (as_name : String)
      (weight anchor_weight : F) (b : Option Bundle) (decode : Bundle → Option Bytes)
      (dir : TrustDir F) (saved anchored : Bool)
      → HasFairAnchors dir
      → HasFairAnchors
          (trust_import crypto now args as_name weight anchor_weight b decode dir saved anchored).1
  unfolding trust_import
  trust_import-HasFairAnchors crypto now [] as_name weight top b decode dir saved anchored h = h
  trust_import-HasFairAnchors crypto now (p ∷ q ∷ args) as_name weight top b decode dir saved
        anchored h =
      h
  trust_import-HasFairAnchors crypto now (p ∷ []) as_name weight top none decode dir saved anchored
        h =
      h
  trust_import-HasFairAnchors crypto now (p ∷ []) as_name weight top (some b) decode dir saved
        anchored h =
      let w = weight_or weight top in
      let person = if str_eq as_name "" then b.person else as_name in
      elim (Option-cases (decode b)) [
        | inl unreadable ↦ rw (unreadable, trust_import) h
        | inr (key, there) ↦
            rw (there, trust_import)
              (if_elim (λ (r : Command F). HasFairAnchors r.1) (str_eq person "") _ _
                (λ nameless. h)
                (λ named.
                  if_elim (λ (r : Command F). HasFairAnchors r.1) (out_of_range w) _ _ (λ bad. h)
                    (λ fair.
                      import_into-HasFairAnchors crypto key now b.certs _ dir saved anchored h
                        fair)))
      ]

  cmd_trust-HasFairAnchors :
      (crypto : Crypto) (anchor_weight : F) (e : Edit F) (dir : TrustDir F)
      → HasFairAnchors dir
      → HasFairAnchors (cmd_trust crypto anchor_weight e dir).1
  unfolding cmd_trust
  cmd_trust-HasFairAnchors crypto top (add args label weight decoded own saved) dir h =
      trust_add-HasFairAnchors crypto args label weight top decoded own dir saved h
  cmd_trust-HasFairAnchors crypto top (set args weight label saved) dir h =
      trust_set-HasFairAnchors args weight label dir saved h
  cmd_trust-HasFairAnchors crypto top (remove args saved) dir h =
      trust_remove-HasFairAnchors args dir saved h
  cmd_trust-HasFairAnchors crypto top (import now args as_name weight b decode saved anchored) dir
        h =
      trust_import-HasFairAnchors crypto now args as_name weight top b decode dir saved anchored h
  cmd_trust-HasFairAnchors crypto top (block args saved) dir h =
      subst IsFairFile (sym (trust_block-anchors args dir saved)) h
  cmd_trust-HasFairAnchors crypto top (unblock args saved) dir h =
      subst IsFairFile (sym (trust_unblock-anchors args dir saved)) h

  -- Whatever trust commands an operator gives, one after the other, with whatever arguments, keys,
  -- bundles and failing saves, and whatever the configured weight is: if no anchor of the file has
  -- a weight that is 0 or below or above 1, none has one afterwards.
  pub after_edits-HasFairAnchors :
      (crypto : Crypto) (anchor_weight : F) (edits : List (Edit F)) (dir : TrustDir F)
      → HasFairAnchors dir
      → HasFairAnchors (after_edits crypto anchor_weight edits dir)
  unfolding after_edits
  after_edits-HasFairAnchors crypto top [] dir h = h
  after_edits-HasFairAnchors crypto top (e ∷ edits) dir h =
      after_edits-HasFairAnchors crypto top edits _ (cmd_trust-HasFairAnchors crypto top e dir h)
