-- ===== src/Ctl/Whitelist/Laws.antt =====
-- What the whitelist's file lists after `whitelist add`.
use federloom.Prelude.{
  ◌≡◌, ◌⊎◌, ◌<◌, refl, ap, ◌∙◌, Bool, true, false, ◌||◌, Bool-cases, inl, inr, arith, String,
  str_eq, eq_iff, eq_refl, List, [], ◌∷◌, ◌++◌, length, ltb, lt→ltb, ok, err, Result-cases,
}
use federloom.Proto.{WhitelistEntry}
use federloom.Store.Whitelist as Whitelist
use federloom.Store.Whitelist.{
  WhitelistFile, entries_of, WhitelistError, load_whitelist, is_listed, drop_entry, save_failed,
}
use federloom.Ctl.Whitelist.{
  Report, whitelist_add, finish_add, Outcome, WhitelistCtlError, usage, bad_address, bad_scope,
  no_config, whitelist_error,
}

is_listed-append :
    (text : String) (es : List WhitelistEntry) (e : WhitelistEntry)
    → (is_listed text es || str_eq e.ip_or_range text) ≡ true
    → is_listed text (es ++ e ∷ []) ≡ true
unfolding is_listed
is_listed-append text [] e h = ground arith
is_listed-append text (x ∷ es) e h = ground (arith, is_listed-append text es e)

pub is_listed-drop_entry :
    (text other : String) (es : List WhitelistEntry)
    → str_eq other text ≡ false
    → is_listed text es ≡ true
    → is_listed text (drop_entry other es) ≡ true
unfolding is_listed drop_entry
is_listed-drop_entry text other [] apart h = cc
is_listed-drop_entry text other (e ∷ es) apart h =
    let rest = is_listed-drop_entry text other es apart in
    elim (Bool-cases (str_eq e.ip_or_range other)) [
      | inl same ↦
          let there : str_eq e.ip_or_range text ≡ false =
            ap (λ x. str_eq x text) ((eq_iff e.ip_or_range other).0 same) ∙ apart in
          rw (same, drop_entry) (rest (rw (there, is_listed) at h))
      | inr different ↦ rw (different, drop_entry) (ground (arith, rest, h))
    ]

length-append : (es : List WhitelistEntry) (e : WhitelistEntry) → length es < length (es ++ e ∷ [])
length-append [] e = omega arith
length-append (x ∷ es) e = let later = length-append es e in ground arith

-- Whether a file lists a text.
abbrev pub lists_text : String → WhitelistFile → Bool
lists_text text file = elim (load_whitelist file) [ ok es ↦ is_listed text es | err e ↦ false ]

pub loaded-lists :
    (text : String) (file : WhitelistFile) (es : List WhitelistEntry)
    → load_whitelist file ≡ ok es
    → is_listed text es ≡ true
    → lists_text text file ≡ true
loaded-lists text file es read h = rw (read, lists_text) h

appended-lists :
    (text : String) (es : List WhitelistEntry) (e : WhitelistEntry)
    → (is_listed text es || str_eq e.ip_or_range text) ≡ true
    → lists_text text (entries_of (es ++ e ∷ [])) ≡ true
unfolding load_whitelist
appended-lists text es e h = is_listed-append text es e h

pub or_true : (b : Bool) → (b || true) ≡ true
or_true b = ground arith

true_or : (b c : Bool) → b ≡ true → (b || c) ≡ true
true_or b c h = ground arith

-- An entry is added to the entries of a file.
module _ (saves : Bool) (text scope source : String) where
  abbrev new_entry : WhitelistEntry
  new_entry = record { ip_or_range = text; scope = scope; source = source }

  abbrev finished : WhitelistFile → List WhitelistEntry → Outcome
  finished file before =
      finish_add saves text file before (Whitelist.add (λ es. saves) new_entry before)

  finished_cases :
      (file : WhitelistFile) (before : List WhitelistEntry)
      → ((is_listed text before ≡ true) × ((finished file before).1 ≡ file))
        ⊎ (((finished file before).1 ≡ entries_of (before ++ new_entry ∷ []))
            ⊎ ((e : WhitelistCtlError) × (finished file before ≡ (err e, file))))
  unfolding Whitelist.add
  finished_cases file before =
      let same : ltb (length before) (length before) ≡ false = ground arith in
      let longer : ltb (length before) (length (before ++ new_entry ∷ [])) ≡ true =
        lt→ltb _ _ (length-append before new_entry) in
      elim (Bool-cases (is_listed text before)) [
        | inl there ↦ inl (there, rw (there, same) refl)
        | inr fresh ↦ inr (elim (Bool-cases saves) [
          | inl works ↦ inl (rw (fresh, works, longer) refl)
          | inr fails ↦ inr (whitelist_error save_failed, rw (fresh, fails) refl)
        ])
      ]

module _ (is_ip is_cidr : String → Bool) where
  add_cases :
      (config_loaded saves : Bool) (args : List String) (scope source : String)
      (file : WhitelistFile)
      → ((e : WhitelistCtlError) × (whitelist_add saves is_ip is_cidr config_loaded args scope
              source file
            ≡ (err e, file)))
        ⊎ ((text : String) × (before : List WhitelistEntry) × (args ≡ text ∷ [])
            × (load_whitelist file ≡ ok before)
            × (whitelist_add saves is_ip is_cidr config_loaded args scope source file
                ≡ finished saves text scope source file before))
  unfolding whitelist_add
  add_cases config_loaded saves [] scope source file = inl (usage, refl)
  add_cases config_loaded saves (a ∷ b ∷ args) scope source file = inl (usage, refl)
  add_cases config_loaded saves (text ∷ []) scope source file =
      elim (Bool-cases (is_ip text || is_cidr text)) [
        | inr bad ↦ inl (bad_address, rw bad refl)
        | inl address ↦
            elim (Bool-cases (str_eq scope "local-only" || str_eq scope "shared-vote")) [
              | inr bad ↦ inl (bad_scope, rw (address, bad) refl)
              | inl known ↦ elim (Bool-cases config_loaded) [
                | inr bad ↦ inl (no_config, rw (address, known, bad) refl)
                | inl loaded ↦ elim (Result-cases (load_whitelist file)) [
                  | inl (e, bad) ↦ inl (whitelist_error e, rw (address, known, loaded, bad) refl)
                  | inr (before, read) ↦
                      inr (text, before, refl, read, rw (address, known, loaded, read) refl)
                ]
              ]
            ]
      ]

  -- The text that is added is listed after a command that reports no error.
  pub add_entry-lists :
      (config_loaded saves : Bool) (text scope source : String) (file : WhitelistFile) (r : Report)
      → (whitelist_add saves is_ip is_cidr config_loaded (text ∷ []) scope source file).0 ≡ ok r
      → lists_text text
          (whitelist_add saves is_ip is_cidr config_loaded (text ∷ []) scope source file).1
        ≡ true
  add_entry-lists config_loaded saves text scope source file r h =
      elim (add_cases config_loaded saves (text ∷ []) scope source file) [
        | inl (e, bad) ↦ cc (bad, h)
        | inr (text1, before, same, read, e) ↦
            let t : text ≡ text1 = cc in
            let file1 =
              (whitelist_add saves is_ip is_cidr config_loaded (text ∷ []) scope source file).1 in
            ap (λ x. lists_text x file1) t
            ∙ elim (finished_cases saves text1 scope source file before) [
              | inl (there, unchanged) ↦
                  ap (lists_text text1) (ap (λ o. o.1) e ∙ unchanged)
                  ∙ loaded-lists text1 file before read there
              | inr (inl changed) ↦
                  ap (lists_text text1) (ap (λ o. o.1) e ∙ changed)
                  ∙ appended-lists text1 before (new_entry saves text1 scope source)
                      (rw (eq_refl text1) (or_true (is_listed text1 before)))
              | inr (inr (err1, bad)) ↦ cc (e, bad, h)
            ]
      ]

  -- What a file lists is listed after any addition.
  pub whitelist_add-lists :
      (config_loaded saves : Bool) (args : List String) (text scope source : String)
      (file : WhitelistFile)
      → lists_text text file ≡ true
      → lists_text text (whitelist_add saves is_ip is_cidr config_loaded args scope source file).1
        ≡ true
  whitelist_add-lists config_loaded saves args text scope source file h =
      elim (add_cases config_loaded saves args scope source file) [
        | inl (e, bad) ↦ ap (λ o. lists_text text o.1) bad ∙ h
        | inr (other, before, same, read, e) ↦
            ap (λ o. lists_text text o.1) e
            ∙ elim (finished_cases saves other scope source file before) [
              | inl (there, unchanged) ↦ ap (lists_text text) unchanged ∙ h
              | inr (inl changed) ↦
                  ap (lists_text text) changed
                  ∙ appended-lists text before (new_entry saves other scope source)
                      (true_or _ _ (rw (read, lists_text) at h))
              | inr (inr (err1, bad)) ↦ ap (λ o. lists_text text o.1) bad ∙ h
            ]
      ]
