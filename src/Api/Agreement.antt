-- ===== src/Api/Agreement.antt =====
-- The endpoints agree with each other.
use federloom.Prelude.{◌≡◌, Bool, ◌&&◌, arith, String, eq_iff, List, [], ◌∷◌, map, contains_string}
use federloom.Float.{Float}
use federloom.Store.{ScoreRecord}
use federloom.Netutil.{Netip}
use federloom.Api.{
  BlocklistFilter, Server, Query, BlockEntry, parse_blocklist_filter, patterns_of, passing,
  handle_blocklist, valid_reputation_key, valid_passing, handle_crowdsec_cti,
}

module _ {F : Type 0} ⦃f : Float F⦄ where
  abbrev pub lists_ip : List (BlockEntry F) → String → Bool
  lists_ip entries = contains_string (map (λ e. e.ip) entries)

  valid_passing_lem :
      (net : Netip) (b : BlocklistFilter F) (patterns : List String)
      (scan : List (String × ScoreRecord F)) (ip : String)
      → contains_string (valid_passing net b patterns scan) ip
        ≡ (valid_reputation_key net ip && lists_ip (passing b patterns scan) ip)
  unfolding valid_passing passing
  valid_passing_lem net b patterns [] ip = ground arith
  valid_passing_lem net b patterns ((i, r) ∷ scan) ip =
      ground (arith, valid_passing_lem net b patterns scan ip, eq_iff i ip)

  -- For the same parameters and the same scan of the store, with a sort that neither loses nor adds
  -- an address: the CrowdSec endpoint lists an address exactly if the blocklist has it and it is a
  -- valid reputation key.
  pub endpoints_agree :
      (trim : String → String) (sort : List (BlockEntry F) → List (BlockEntry F)) (net : Netip)
      (s : Server F) (q : Query F) (scan : List (String × ScoreRecord F)) (ip : String)
      → ((entries : List (BlockEntry F)) → lists_ip (sort entries) ip ≡ lists_ip entries ip)
      → contains_string (handle_crowdsec_cti trim net s q scan) ip
        ≡ (valid_reputation_key net ip && lists_ip (handle_blocklist trim sort s q scan) ip)
  unfolding handle_crowdsec_cti handle_blocklist
  endpoints_agree trim sort net s q scan ip keeps =
      let b = parse_blocklist_filter trim s q in
      rw (keeps (passing b (patterns_of s b) scan))
        (valid_passing_lem net b (patterns_of s b) scan ip)
