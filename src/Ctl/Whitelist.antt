-- ===== src/Ctl/Whitelist.antt =====
-- cmd/federloomctl/whitelist.go: the commands that edit the whitelist's file. Whether the
-- configuration loads and whether a save succeeds are arguments.
pub mod Laws
pub mod Heeded
mod Tests
use federloom.Prelude.{
  Bool, true, false, ◌||◌, not, if◌then◌else◌, String, str_eq, List, [], ◌∷◌, ◌++◌, Option, none,
  some, length, ltb, Result, ok, err,
}
use federloom.Proto.{WhitelistEntry}
use federloom.Store.Whitelist as Whitelist
use federloom.Store.Whitelist.{WhitelistFile, entries_of, WhitelistError, load_whitelist, is_listed}

pub data WhitelistCtlError : Type 0 where
  usage bad_address bad_scope no_config : WhitelistCtlError
  whitelist_error : WhitelistError → WhitelistCtlError

-- What a command prints.
pub data Report : Type 0 where
  added already_listed removed : String → Report
  listing : List WhitelistEntry → Report

-- The error or the report, and the file after the command.
abbrev pub Outcome : Type 0
Outcome = Result WhitelistCtlError Report × WhitelistFile

module _ (saves : Bool) where
  abbrev pub finish_add :
      String
      → WhitelistFile
      → List WhitelistEntry
      → List WhitelistEntry × Result WhitelistError (Unit {0})
      → Outcome
  finish_add text file before (after, err e) = (err (whitelist_error e), file)
  finish_add text file before (after, ok done) =
      if ltb (length before) (length after)
      then (ok (added text), entries_of after)
      else (ok (already_listed text), file)

  -- `is_ip` and `is_cidr` are `net.ParseIP` and `net.ParseCIDR`.
  unfoldable pub whitelist_add :
      (String → Bool)
      → (String → Bool)
      → Bool
      → List String
      → String
      → String
      → WhitelistFile
      → Outcome
  unfolding load_whitelist Whitelist.add
  whitelist_add is_ip is_cidr config_loaded (text ∷ []) scope source file =
      if not (is_ip text || is_cidr text)
      then (err bad_address, file)
      else if not (str_eq scope "local-only" || str_eq scope "shared-vote")
      then (err bad_scope, file)
      else if not config_loaded
      then (err no_config, file)
      else elim (load_whitelist file) [
        | err e ↦ (err (whitelist_error e), file)
        | ok before ↦ finish_add text file before (
            Whitelist.add (λ es. saves)
              (record { ip_or_range = text; scope = scope; source = source }) before)
      ]
  whitelist_add is_ip is_cidr config_loaded [] scope source file = (err usage, file)
  whitelist_add is_ip is_cidr config_loaded (a ∷ b ∷ args) scope source file = (err usage, file)

  abbrev pub finish_remove :
      String
      → WhitelistFile
      → List WhitelistEntry
      → List WhitelistEntry × Result WhitelistError (Unit {0})
      → Outcome
  finish_remove text file before (after, err e) = (err (whitelist_error e), file)
  finish_remove text file before (after, ok done) =
      (ok (removed text), if ltb (length after) (length before) then entries_of after else file)

  unfoldable pub whitelist_remove : Bool → List String → WhitelistFile → Outcome
  unfolding load_whitelist Whitelist.remove
  whitelist_remove config_loaded (text ∷ []) file =
      if not config_loaded then (err no_config, file) else elim (load_whitelist file) [
        | err e ↦ (err (whitelist_error e), file)
        | ok before ↦ finish_remove text file before (Whitelist.remove (λ es. saves) text before)
      ]
  whitelist_remove config_loaded [] file = (err usage, file)
  whitelist_remove config_loaded (a ∷ b ∷ args) file = (err usage, file)

unfoldable pub whitelist_list : Bool → WhitelistFile → Outcome
unfolding load_whitelist
whitelist_list config_loaded file =
    if not config_loaded then (err no_config, file) else elim (load_whitelist file) [
      | err e ↦ (err (whitelist_error e), file)
      | ok entries ↦ (ok (listing entries), file)
    ]

-- A command with its flags and arguments.
pub data WhitelistCommand : Type 0 where
  add_entry : List String → String → String → WhitelistCommand
  remove_entry : List String → WhitelistCommand
  list_entries : WhitelistCommand
  no_subcommand : WhitelistCommand

unfoldable pub cmd_whitelist :
    (String → Bool) → (String → Bool) → Bool → Bool → WhitelistCommand → WhitelistFile → Outcome
unfolding whitelist_add whitelist_remove whitelist_list
cmd_whitelist is_ip is_cidr config_loaded saves (add_entry args scope source) file =
    whitelist_add saves is_ip is_cidr config_loaded args scope source file
cmd_whitelist is_ip is_cidr config_loaded saves (remove_entry args) file =
    whitelist_remove saves config_loaded args file
cmd_whitelist is_ip is_cidr config_loaded saves list_entries file =
    whitelist_list config_loaded file
cmd_whitelist is_ip is_cidr config_loaded saves no_subcommand file = (err usage, file)
