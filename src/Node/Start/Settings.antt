-- ===== src/Node/Start/Settings.antt =====
-- internal/config/config.go: the settings as they take effect, and the paths of the files.
use federloom.Prelude.{◌*◌, if◌then◌else◌, leb, String, str_eq, List, [], ◌∷◌}
use federloom.Float.{Float, num, ◌⊘◌, ◌<?◌, ◌≤?◌}
use federloom.Proto.{Duration, second}

pub record TrustConfig (F : Type 0) : Type 0 where
  pub anchors_file : String
  pub person_key_file : String
  pub peer_cert_file : String
  pub blocked_peers_file : String
  pub anchor_weight : F
  pub stranger_weight : F
  pub stranger_score_cap : F
  pub federation_discount : F
  pub diversity_repeat_factor : F

module _ {F : Type 0} ⦃f : Float F⦄ where
  unfoldable pub effective_diversity_repeat_factor : F → F
  effective_diversity_repeat_factor x =
      if x ≤? num 0 then num 15 ⊘ num 100 else if num 1 <? x then num 1 else x

  unfoldable pub effective_dispute_weight : F → F
  effective_dispute_weight x = if x ≤? num 0 then num 10 else x

-- `chains` takes precedence over the legacy `chain`.
unfoldable pub effective_chains : List String → String → List String
effective_chains [] chain = (if str_eq chain "" then "DOCKER-USER" else chain) ∷ []
effective_chains (c ∷ chains) chain = c ∷ chains

unfoldable pub effective_query_timeout : Duration → Duration
effective_query_timeout d = if leb d 0 then 150000000 else d

unfoldable pub effective_query_cache_ttl : Duration → Duration
effective_query_cache_ttl d = if leb d 0 then 300 * second else d

-- The paths of a store's directory; `join` is `filepath.Join`.
module _ (join : String → String → String) (dir : String) where
  unfoldable pub node_key_file : String
  node_key_file = join dir "identity.key"

  abbrev path_or : String → String → String
  path_or path name = if str_eq path "" then join dir name else path

  unfoldable pub trust_anchors_file : {F : Type 0} → TrustConfig F → String
  trust_anchors_file c = path_or c.anchors_file "anchors.json"

  unfoldable pub trust_person_key_file : {F : Type 0} → TrustConfig F → String
  trust_person_key_file c = path_or c.person_key_file "person.key"

  unfoldable pub trust_peer_cert_file : {F : Type 0} → TrustConfig F → String
  trust_peer_cert_file c = path_or c.peer_cert_file "peer.cert"

  unfoldable pub trust_certs_file : String
  trust_certs_file = join dir "imported-certs.json"

  unfoldable pub trust_blocked_peers_file : {F : Type 0} → TrustConfig F → String
  trust_blocked_peers_file c = path_or c.blocked_peers_file "blocked-peers.json"

  unfoldable pub whitelist_file : String
  whitelist_file = join dir "whitelist.json"

  unfoldable pub rules_file_path : String → String
  rules_file_path rules_file = path_or rules_file "rules.yaml"
