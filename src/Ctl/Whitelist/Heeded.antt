-- ===== src/Ctl/Whitelist/Heeded.antt =====
-- What an operator adds to the whitelist stays there, and the node that is started later heeds it.
use federloom.Prelude.{
  ℕ, ◌≡◌, ◌⊎◌, refl, ap, ◌∙◌, Bool, true, false, ◌||◌, ◌==◌, Bool-cases, inl, inr, arith, String,
  str_eq, eq_iff, Option, List, [], ◌∷◌, some, length, ltb, ok, Result-cases, contains_string, All,
}
use federloom.Float.{Float}
use federloom.Proto.{WhitelistEntry}
use federloom.Store.Whitelist as Whitelist
use federloom.Store.Whitelist.{WhitelistFile, entries_of, load_whitelist, is_listed, drop_entry}
use federloom.Netutil.{Addr, Netip, unmap, normalize_ip}
use federloom.Netutil.Keys.{IsNetip, IsAddr}
use federloom.Node.{Node, World}
use federloom.Node.Remote.Backstop.{blocks}
use federloom.Node.Run.{Reach}
use federloom.Node.Run.Shield.{covers_widely, any_covers_widely, any_shields}
use federloom.Enforce.Neverblock.{new_never_block_list}
use federloom.Node.Start.{StartConfig, Disk, new_node}
use federloom.Node.Start.Laws.{started_never_blocks}
use federloom.Ctl.Whitelist.{
  Report, WhitelistCommand, add_entry, remove_entry, list_entries, no_subcommand, whitelist_remove,
  whitelist_list, cmd_whitelist, finish_remove,
}
use federloom.Ctl.Whitelist.Laws.{
  lists_text, or_true, is_listed-drop_entry, add_entry-lists, whitelist_add-lists,
}

removed_cases :
    (saves : Bool) (other : String) (file : WhitelistFile) (before : List WhitelistEntry)
    → let after =
        (finish_remove saves other file before (Whitelist.remove (λ es. saves) other before)).1 in
      (after ≡ file) ⊎ (after ≡ entries_of (drop_entry other before))
unfolding Whitelist.remove
removed_cases saves other file before =
    let same : ltb (length before) (length before) ≡ false = ground arith in
    elim (Bool-cases (length (drop_entry other before) == length before)) [
      | inl none_there ↦ inl (rw (none_there, same) refl)
      | inr there ↦ elim (Bool-cases saves) [
        | inr fails ↦ inl (rw (there, fails) refl)
        | inl works ↦ elim (Bool-cases (ltb (length (drop_entry other before)) (length before))) [
          | inl shorter ↦ inr (rw (there, works, shorter) refl)
          | inr longer ↦ inl (rw (there, works, longer) refl)
        ]
      ]
    ]

whitelist_remove-lists :
    (config_loaded saves : Bool) (other text : String) (file : WhitelistFile)
    → str_eq other text ≡ false
    → lists_text text file ≡ true
    → lists_text text (whitelist_remove saves config_loaded (other ∷ []) file).1 ≡ true
unfolding whitelist_remove load_whitelist
whitelist_remove-lists config_loaded saves other text file apart h =
    elim (Bool-cases config_loaded) [
      | inr bad ↦ rw (bad, whitelist_remove) h
      | inl loaded ↦ elim (Result-cases (load_whitelist file)) [
        | inl (e, bad) ↦ cc (rw (bad, lists_text) at h)
        | inr (before, read) ↦
            rw (loaded, whitelist_remove, read)
              (elim (removed_cases saves other file before) [
                | inl unchanged ↦ ap (lists_text text) unchanged ∙ h
                | inr changed ↦
                    ap (lists_text text) changed
                    ∙ is_listed-drop_entry text other before apart (rw (read, lists_text) at h)
              ])
      ]
    ]

-- Whether a command asks for the removal of a text.
abbrev pub removes : String → WhitelistCommand → Bool
removes text (remove_entry (other ∷ [])) = str_eq other text
removes text (remove_entry []) = false
removes text (remove_entry (a ∷ b ∷ args)) = false
removes text (add_entry args scope source) = false
removes text list_entries = false
removes text no_subcommand = false

-- Whether the configuration loads, whether a save succeeds, and the command.
abbrev pub Invocation : Type 0
Invocation = Bool × Bool × WhitelistCommand

module _ (is_ip is_cidr : String → Bool) where
  -- The file after a sequence of commands.
  abbrev pub after_commands : List Invocation → WhitelistFile → WhitelistFile
  after_commands [] file = file
  after_commands ((config_loaded, saves, command) ∷ later) file =
      after_commands later (cmd_whitelist is_ip is_cidr config_loaded saves command file).1

  whitelist_list-keeps :
      (config_loaded : Bool) (file : WhitelistFile) → (whitelist_list config_loaded file).1 ≡ file
  unfolding whitelist_list
  whitelist_list-keeps config_loaded file = elim (Bool-cases config_loaded) [
    | inr bad ↦ rw bad refl
    | inl loaded ↦ elim (Result-cases (load_whitelist file)) [
      | inl (e, bad) ↦ rw (loaded, bad) refl
      | inr (es, read) ↦ rw (loaded, read) refl
    ]
  ]

  cmd_whitelist-lists :
      (config_loaded saves : Bool) (text : String) (command : WhitelistCommand)
      (file : WhitelistFile)
      → removes text command ≡ false
      → lists_text text file ≡ true
      → lists_text text (cmd_whitelist is_ip is_cidr config_loaded saves command file).1 ≡ true
  unfolding cmd_whitelist whitelist_remove
  cmd_whitelist-lists config_loaded saves text (add_entry args scope source) file kept h =
      whitelist_add-lists is_ip is_cidr config_loaded saves args text scope source file h
  cmd_whitelist-lists config_loaded saves text (remove_entry []) file kept h = h
  cmd_whitelist-lists config_loaded saves text (remove_entry (a ∷ b ∷ args)) file kept h = h
  cmd_whitelist-lists config_loaded saves text (remove_entry (other ∷ [])) file kept h =
      whitelist_remove-lists config_loaded saves other text file kept h
  cmd_whitelist-lists config_loaded saves text list_entries file kept h =
      ap (lists_text text) (whitelist_list-keeps config_loaded file) ∙ h
  cmd_whitelist-lists config_loaded saves text no_subcommand file kept h = h

  after_commands-lists :
      (text : String) (later : List Invocation) (file : WhitelistFile)
      → All (λ c. removes text c.2 ≡ false) later
      → lists_text text file ≡ true
      → lists_text text (after_commands later file) ≡ true
  after_commands-lists text [] file kept h = h
  after_commands-lists text ((config_loaded, saves, command) ∷ later) file kept h =
      after_commands-lists text later _ kept.1
        (cmd_whitelist-lists config_loaded saves text command file kept.0 h)

any_covers_listed :
    (ip : Netip) (pfx : ℕ) (text : String) (es : List WhitelistEntry) (a : Addr)
    → is_listed text es ≡ true
    → covers_widely ip pfx text a ≡ true
    → any_covers_widely ip pfx es a ≡ true
unfolding is_listed
any_covers_listed ip pfx text [] a h covered = cc
any_covers_listed ip pfx text (e ∷ es) a h covered = elim (Bool-cases (str_eq e.ip_or_range text)) [
  | inl same ↦
      ap (λ t. covers_widely ip pfx t a || any_covers_widely ip pfx es a)
        ((eq_iff e.ip_or_range text).0 same)
      ∙ ap (λ b. b || any_covers_widely ip pfx es a) covered
  | inr other ↦
      ap (λ b. covers_widely ip pfx e.ip_or_range a || b)
        (any_covers_listed ip pfx text es a (rw other at h) covered)
      ∙ or_true _
]

module _ {F S : Type 0} ⦃f : Float F⦄ (w : World F S) (is_ip is_cidr : String → Bool) where
  -- An operator's `whitelist add` of an IPv4 address, or of a network, an IPv6 one at least as wide
  -- as the prefix that the keys have, reports no error. Whatever whitelist commands follow,
  -- except for a removal of the same text, and whatever a node goes through that is then made with
  -- the file: it never asks for a block of the key of an address that the text covers, however the
  -- address was written.
  pub added_never_blocked :
      (config_loaded saves : Bool) (text scope source : String) (file : WhitelistFile) (r : Report)
      (later : List Invocation) (c : StartConfig F) (peer : Option String) (disk : Disk F S)
      (n m : Node F S) (s key : String) (a : Addr) (pfx : ℕ)
      → (cmd_whitelist is_ip is_cidr config_loaded saves
          (add_entry (text ∷ []) scope source)
          file).0
        ≡ ok r
      → All (λ c. removes text c.2 ≡ false) later
      → disk.whitelist
        ≡ after_commands is_ip is_cidr
            ((config_loaded, saves, add_entry (text ∷ []) scope source) ∷ later)
            file
      → IsNetip w.netip
      → new_node w c peer disk ≡ ok n
      → Reach w.netip n m
      → w.netip.parse_addr s ≡ some a
      → IsAddr (unmap a)
      → normalize_ip w.netip s pfx ≡ some key
      → covers_widely w.netip pfx text (unmap a) ≡ true
      → contains_string (blocks m.calls) key ≡ false
  unfolding cmd_whitelist
  added_never_blocked config_loaded saves text scope source file r later c peer disk n m s key a pfx
        done kept written laws made reached parsed valid normal covered =
      let listed : lists_text text disk.whitelist ≡ true =
        ap (lists_text text) written
        ∙ after_commands-lists is_ip is_cidr text later _ kept
            (add_entry-lists is_ip is_cidr config_loaded saves text scope source file r done) in
      let operators : Bool =
        any_shields pfx (new_never_block_list w.netip c.extra_whitelist).prefixes (unmap a) in
      elim (Result-cases (load_whitelist disk.whitelist)) [
        | inl (e, bad) ↦ cc (rw (bad, lists_text) at listed)
        | inr (es, read) ↦
            started_never_blocks w c peer disk n m es s key a pfx laws made read reached parsed
              valid normal
              (ap (λ b. operators || b)
                  (any_covers_listed w.netip pfx text es (unmap a) (rw (read, lists_text) at listed)
                    covered)
                ∙ or_true operators)
      ]
