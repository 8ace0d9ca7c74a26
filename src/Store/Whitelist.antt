-- ===== src/Store/Whitelist.antt =====
-- internal/store/whitelist.go: the addresses and networks that the operator never blocks. The file
-- is written by the parameter `save`.
use federloom.Prelude.{
  Bool, true, false, ◌&&◌, if◌then◌else◌, ◌==◌, String, str_eq, List, [], ◌∷◌, ◌++◌, none, some,
  length, Result, ok, err,
}
use federloom.Proto.{WhitelistEntry}
use federloom.Netutil.{Addr, v4, v6, Netip, unmap, masked, prefix_contains, key_addr}

-- What the file system has: no file, one that cannot be read, an empty one, one that is no JSON
-- list, or the entries.
pub data WhitelistFile : Type 0 where
  missing unreadable empty malformed : WhitelistFile
  entries_of : List WhitelistEntry → WhitelistFile

pub data WhitelistError : Type 0 where
  read_failed parse_failed save_failed : WhitelistError

unfoldable pub load_whitelist : WhitelistFile → Result WhitelistError (List WhitelistEntry)
load_whitelist missing = ok []
load_whitelist unreadable = err read_failed
load_whitelist empty = ok []
load_whitelist malformed = err parse_failed
load_whitelist (entries_of es) = ok es

-- `Addr.Compare` is 0: the same family, number and zone.
abbrev pub same_addr : Addr → Addr → Bool
same_addr (v4 m) (v4 n) = m == n
same_addr (v4 m) (v6 n zone) = false
same_addr (v6 m z) (v4 n) = false
same_addr (v6 m z) (v6 n zone) = m == n && str_eq z zone

module _ (ip : Netip) where
  -- One entry covers an address if it is that address, or a network around it.
  unfoldable pub covers : String → Addr → Bool
  covers text a = elim (ip.parse_addr text) [
    | some entry ↦ same_addr (unmap entry) a
    | none ↦ elim (ip.parse_prefix text) [
      | some prefix ↦ prefix_contains (masked prefix) a
      | none ↦ false
    ]
  ]

  unfoldable pub any_covers : List WhitelistEntry → Addr → Bool
  any_covers [] a = false
  any_covers (e ∷ es) a = if covers e.ip_or_range a then true else any_covers es a

  unfoldable pub whitelisted : List WhitelistEntry → String → Bool
  whitelisted es key = elim (key_addr ip key) [ some a ↦ any_covers es a | none ↦ false ]

unfoldable pub is_listed : String → List WhitelistEntry → Bool
is_listed text [] = false
is_listed text (e ∷ es) = if str_eq e.ip_or_range text then true else is_listed text es

unfoldable pub drop_entry : String → List WhitelistEntry → List WhitelistEntry
drop_entry text [] = []
drop_entry text (e ∷ es) =
    let rest = drop_entry text es in if str_eq e.ip_or_range text then rest else e ∷ rest

-- The entries in memory after the call, and whether the file was saved too: the change in memory
-- stays when the save fails.
unfoldable pub add :
    (List WhitelistEntry → Bool)
    → WhitelistEntry
    → List WhitelistEntry
    → List WhitelistEntry × Result WhitelistError (Unit {0})
unfolding is_listed
add save entry es =
    if is_listed entry.ip_or_range es
    then (es, ok tt)
    else if save (es ++ (entry ∷ []))
    then (es ++ (entry ∷ []), ok tt)
    else (es ++ (entry ∷ []), err save_failed)

unfoldable pub remove :
    (List WhitelistEntry → Bool)
    → String
    → List WhitelistEntry
    → List WhitelistEntry × Result WhitelistError (Unit {0})
unfolding drop_entry
remove save text es =
    if length (drop_entry text es) == length es
    then (es, ok tt)
    else if save (drop_entry text es)
    then (drop_entry text es, ok tt)
    else (drop_entry text es, err save_failed)
